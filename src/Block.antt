-- ===== src/Block.antt =====
-- blockrock-core/src/block.rs: blocks, their hash and their seal. The clock that `Block::new` reads
-- is an argument.
pub mod Hash
use block_rock.Base.{
  ℕ, Bool, false, Option, none, some, List, [], ◌∷◌, ◌++◌, Bytes, Str, codes, ◌==◌, to_le_bytes,
  take,
}
use block_rock.Crypto.{Crypto, VerifyingKey, SigningKey, Signature}
use block_rock.Transaction.{Transaction}

-- `b"blockrock.block.v1"`
abbrev pub block_domain : Bytes
block_domain = codes "blockrock.block.v1"

pub record Block : Type 0 where
  pub index : ℕ
  pub timestamp : ℕ
  pub transactions : List Transaction
  pub previous_hash : Str
  pub hash : Str
  pub authority : Str
  pub authority_signature : Option Signature

abbrev signature_bytes : Option Signature → Bytes
signature_bytes none = []
signature_bytes (some signature) = signature

-- What the hasher is fed for one transaction.
unfoldable pub transaction_bytes : Transaction → Bytes
transaction_bytes t =
    t.id
    ++ (t.sender
        ++ (t.receiver
            ++ (to_le_bytes 8 t.amount ++ (to_le_bytes 8 t.nonce ++ signature_bytes t.signature))))

unfoldable pub transactions_bytes : List Transaction → Bytes
unfolding transaction_bytes
transactions_bytes [] = []
transactions_bytes (t ∷ ts) = transaction_bytes t ++ transactions_bytes ts

-- The bytes that `calculate_hash` feeds to the hasher.
unfoldable pub hashed_bytes : Block → Bytes
unfolding transactions_bytes
hashed_bytes b =
    to_le_bytes 4 b.index
    ++ (to_le_bytes 8 b.timestamp
        ++ (transactions_bytes b.transactions ++ (b.previous_hash ++ b.authority)))

unfoldable pub signing_payload : Block → Bytes
signing_payload b = block_domain ++ b.hash

module _ ⦃crypto : Crypto⦄ where
  unfoldable pub calculate_hash : Block → Str
  calculate_hash b = crypto.hex_encode (take 32 (crypto.blake2b512 (hashed_bytes b)))

  unfoldable pub is_hash_valid : Block → Bool
  is_hash_valid b = calculate_hash b == b.hash

  unfoldable pub with_timestamp : ℕ → List Transaction → Str → Str → ℕ → Block
  with_timestamp index transactions previous_hash authority timestamp =
      let block : Block = record {
        index = index;
        timestamp = timestamp;
        transactions = transactions;
        previous_hash = previous_hash;
        hash = [];
        authority = authority;
        authority_signature = none;
      } in
      record block { hash = calculate_hash block }

  -- `Block::new` at the time `now`.
  unfoldable pub new : ℕ → ℕ → List Transaction → Str → Str → Block
  unfolding with_timestamp
  new now index transactions previous_hash authority =
      with_timestamp index transactions previous_hash authority now

  unfoldable pub seal : Block → SigningKey → Block
  seal b signing_key = record b {
    authority_signature = some (crypto.sign signing_key (signing_payload b));
  }

  unfoldable pub sealed : ℕ → ℕ → List Transaction → Str → Str → SigningKey → Block
  unfolding new seal
  sealed now index transactions previous_hash authority signing_key =
      seal (new now index transactions previous_hash authority) signing_key

  verify_signature : Block → VerifyingKey → Option Signature → Bool
  verify_signature b key none = false
  verify_signature b key (some signature) = crypto.verify key (signing_payload b) signature

  unfoldable pub verify_seal : Block → VerifyingKey → Bool
  unfolding verify_signature
  verify_seal b key = verify_signature b key b.authority_signature
