-- ===== src/Tests/LedgerRuns.antt =====
-- Runs of transactions and of the ledger.
use block_rock.Base.{
  ◌+◌, ◌≡◌, ◌⊎◌, refl, ok, Bytes-discrete, codes, none, [], ◌∷◌, to_le_bytes, get, insert, add_u64,
  checked_add, get_or_zero, total, member, true, false, Str, arith,
}
use block_rock.Transaction
use block_rock.Transaction.{Transaction, has_valid_id, verify, signing_payload}
use block_rock.Transaction.Encoding
use block_rock.Transaction.Encoding.{SameContent, Collision, signing_payload-injective, same_id}
use block_rock.Transaction.Signing.{new_with_payload-verify}
use block_rock.Block
use block_rock.Block.{Block, calculate_hash}
use block_rock.Ledger.{
  mint_account, apply_transaction, apply_transactions, verify_block, replay_from, charge, credit,
}
use block_rock.Ledger.Valid.{
  ValidFrom, settled_chain, noted_chain, valid_of_replay_from, replay_from_of_valid,
}
use block_rock.Ledger.Value.{minted_chain, replay_from_conserves}
use block_rock.Ledger.Distinct.{Distinct, chain_ids, replay_from-Distinct}
use block_rock.Tests.Sample.{
  toy, toy-SignsVerifiably, alice, bob, payment, ledger, ledger_keys, paid, first_block, replayed,
}

payment_applied : apply_transaction ledger_keys ledger [] payment ≡ ok paid
unfolding apply_transaction charge credit paid payment mint_account Transaction.new
    Transaction.new_with_payload Transaction.unsigned_with_payload Transaction.compute_id
    Transaction.has_valid_id Transaction.payload_within_limit Transaction.verify
    Transaction.signing_payload Transaction.canonical_bytes Transaction.prefixed
    Transaction.payload_bytes Bytes-discrete to_le_bytes get insert add_u64 checked_add get_or_zero
    member
payment_applied = refl

first_block-replayed :
    replay_from [] ledger_keys 0 (codes "0") ledger [] (first_block ∷ []) ≡ ok replayed
unfolding replay_from verify_block apply_transactions replayed first_block Block.with_timestamp
    Block.is_hash_valid Block.calculate_hash Block.hashed_bytes Block.transactions_bytes
    Block.transaction_bytes apply_transaction charge credit payment mint_account Transaction.new
    Transaction.new_with_payload Transaction.unsigned_with_payload Transaction.compute_id
    Transaction.has_valid_id Transaction.payload_within_limit Transaction.verify
    Transaction.signing_payload Transaction.canonical_bytes Transaction.prefixed
    Transaction.payload_bytes Bytes-discrete to_le_bytes get insert add_u64 checked_add get_or_zero
    member
first_block-replayed = refl

replay_from_conserves_example :
    total replayed.0.balances ≡ total ledger.balances + minted_chain (first_block ∷ [])
replay_from_conserves_example =
    replay_from_conserves [] ledger_keys 0 (codes "0") ledger [] (first_block ∷ [])
      first_block-replayed

valid_of_replay_from_example :
    ValidFrom [] ledger_keys 0 (codes "0") ledger [] (first_block ∷ [])
    × (replayed ≡ (settled_chain ledger (first_block ∷ []), noted_chain [] (first_block ∷ [])))
valid_of_replay_from_example =
    valid_of_replay_from [] ledger_keys 0 (codes "0") ledger [] (first_block ∷ [])
      first_block-replayed

replay_from_of_valid_example :
    replay_from [] ledger_keys 0 (codes "0") ledger [] (first_block ∷ [])
    ≡ ok (settled_chain ledger (first_block ∷ []), noted_chain [] (first_block ∷ []))
replay_from_of_valid_example =
    replay_from_of_valid [] ledger_keys 0 (codes "0") ledger [] (first_block ∷ [])
      (valid_of_replay_from [] ledger_keys 0 (codes "0") ledger [] (first_block ∷ [])
        first_block-replayed).0

replay_from-Distinct_example :
    Distinct (chain_ids (first_block ∷ []))
    × ((i : Str) → member i [] ≡ true → member i (chain_ids (first_block ∷ [])) ≡ false)
replay_from-Distinct_example =
    replay_from-Distinct [] ledger_keys 0 (codes "0") ledger [] (first_block ∷ [])
      first_block-replayed

payment-InRange : Encoding.InRange payment
unfolding payment Transaction.new Transaction.new_with_payload Transaction.unsigned_with_payload
payment-InRange = record {
  sender = omega arith;
  receiver = omega arith;
  amount = omega arith;
  nonce = omega arith;
  payload = tt;
}

signing_payload-injective_example : SameContent payment payment
signing_payload-injective_example =
    signing_payload-injective payment payment payment-InRange payment-InRange refl

payment_intact : has_valid_id payment ≡ true
unfolding payment Transaction.new Transaction.new_with_payload
payment_intact = (new_with_payload-verify alice bob 30 0 none (codes "a") toy-SignsVerifiably).0

same_id_example :
    SameContent payment payment ⊎ Collision (signing_payload payment) (signing_payload payment)
same_id_example =
    same_id payment payment payment-InRange payment-InRange payment_intact payment_intact refl

new_with_payload-verify_example :
    (has_valid_id (Transaction.new_with_payload alice bob 30 0 none (codes "a")) ≡ true)
    × (verify (Transaction.new_with_payload alice bob 30 0 none (codes "a")) (codes "a") ≡ true)
    × (Transaction.signed_with_payload alice bob 30 0 none (
          toy.sign
            (codes "a")
            (signing_payload (Transaction.new_with_payload alice bob 30 0 none (codes "a"))))
        ≡ Transaction.new_with_payload alice bob 30 0 none (codes "a"))
new_with_payload-verify_example =
    new_with_payload-verify alice bob 30 0 none (codes "a") toy-SignsVerifiably
