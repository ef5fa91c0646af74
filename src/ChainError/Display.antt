-- ===== src/ChainError/Display.antt =====
-- The texts of `ChainError` and of `Transaction`: their `Display` in blockrock-core/src/blockchain.rs and
-- blockrock-core/src/transaction.rs.
use block_rock.Base.{◌++◌, Str, codes}
use block_rock.Text.Decimal.{decimal}
use block_rock.Transaction.{Transaction}
use block_rock.ChainError.{
  ChainError, unauthorized_authority, unknown_authority_key, authority_key_mismatch, unsealed_block,
  invalid_seal, wrong_index, broken_link, corrupted_hash, genesis_mismatch, duplicate_transaction,
  tampered_transaction, reserved_sender, unknown_sender, invalid_signature, invalid_nonce,
  payload_too_large, mempool_full, insufficient_funds, balance_overflow,
}

-- "'{}'"
abbrev pub quoted : Str → Str
quoted name = codes "'" ++ name ++ codes "'"

unfoldable pub error_text : ChainError → Str
unfolding decimal
error_text (unauthorized_authority name) = quoted name ++ codes " is not an authorized authority"
error_text (unknown_authority_key name) =
    codes "no public key registered for authority " ++ quoted name
error_text (authority_key_mismatch name) =
    codes "signing key does not match the key registered for " ++ quoted name
error_text (unsealed_block index) = codes "block " ++ decimal index ++ codes " carries no seal"
error_text (invalid_seal index) = codes "block " ++ decimal index ++ codes " has an invalid seal"
error_text (wrong_index expected found) =
    codes "expected block index " ++ decimal expected ++ codes ", found " ++ decimal found
error_text (broken_link index) =
    codes "block " ++ decimal index ++ codes " does not link to the previous hash"
error_text (corrupted_hash index) =
    codes "block " ++ decimal index ++ codes " hash does not match its content"
error_text genesis_mismatch = codes "the chains do not share the same genesis block"
error_text (duplicate_transaction id) = codes "transaction " ++ id ++ codes " is already on chain"
error_text (tampered_transaction id) =
    codes "transaction " ++ id ++ codes " id does not match its content"
error_text (reserved_sender sender) =
    quoted sender ++ codes " mints value and cannot enter the mempool"
error_text (unknown_sender sender) = codes "no public key registered for " ++ quoted sender
error_text (invalid_signature id) = codes "transaction " ++ id ++ codes " has an invalid signature"
error_text (invalid_nonce sender expected found) =
    quoted sender
    ++ codes " expected nonce "
    ++ decimal expected
    ++ codes ", found "
    ++ decimal found
error_text (payload_too_large id size max) =
    codes "transaction "
    ++ quoted id
    ++ codes " carries "
    ++ decimal size
    ++ codes " bytes of payload, more than the "
    ++ decimal max
    ++ codes " allowed"
error_text (mempool_full queued max) =
    codes "mempool is full: " ++ decimal queued ++ codes " bytes queued, limit is " ++ decimal max
error_text (insufficient_funds sender balance amount) =
    quoted sender
    ++ codes " holds "
    ++ decimal balance
    ++ codes " but tried to send "
    ++ decimal amount
error_text (balance_overflow account) = codes "balance overflow for " ++ quoted account

unfoldable pub transaction_text : Transaction → Str
unfolding decimal
transaction_text t =
    codes "Transaction: "
    ++ t.sender
    ++ codes " -> "
    ++ t.receiver
    ++ codes " ("
    ++ decimal t.amount
    ++ codes ", nonce: "
    ++ decimal t.nonce
    ++ codes ", id: "
    ++ t.id
    ++ codes ")"
