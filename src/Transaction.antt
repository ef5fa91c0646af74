-- ===== src/Transaction.antt =====
-- blockrock-core/src/transaction.rs: signed transfers, their canonical bytes and their checks.
pub mod Encoding
pub mod Signing
use block_rock.Base.{
  ℕ, ◌*◌, Bool, true, false, ◌&&◌, Option, none, some, [], ◌∷◌, ◌++◌, Bytes, Str, codes, ◌==◌, leb,
  length, to_le_bytes, add_u64,
}
use block_rock.Crypto.{Crypto, VerifyingKey, SigningKey, Signature}

-- `b"blockrock.transaction.v1"`
abbrev pub transaction_domain : Bytes
transaction_domain = codes "blockrock.transaction.v1"

abbrev pub payload_tag : ℕ
payload_tag = 1

abbrev pub max_payload_bytes : ℕ
max_payload_bytes = 4 * 1024

abbrev pub transaction_overhead : ℕ
transaction_overhead = 128

pub record Transaction : Type 0 where
  pub id : Str
  pub sender : Str
  pub receiver : Str
  pub amount : ℕ
  pub nonce : ℕ
  pub payload : Option Str
  pub signature : Option Signature

-- A field behind its length as a u64.
unfoldable pub prefixed : Bytes → Bytes
prefixed field = to_le_bytes 8 (length field) ++ field

unfoldable pub payload_bytes : Option Str → Bytes
unfolding prefixed
payload_bytes none = []
payload_bytes (some text) = payload_tag ∷ prefixed text

-- The free function `signing_payload`.
unfoldable pub canonical_bytes : Str → Str → ℕ → ℕ → Option Str → Bytes
unfolding prefixed payload_bytes
canonical_bytes sender receiver amount nonce payload =
    transaction_domain
    ++ (prefixed sender
        ++ (prefixed receiver
            ++ (to_le_bytes 8 amount ++ (to_le_bytes 8 nonce ++ payload_bytes payload))))

-- The method `signing_payload`.
unfoldable pub signing_payload : Transaction → Bytes
signing_payload t = canonical_bytes t.sender t.receiver t.amount t.nonce t.payload

abbrev payload_size : Option Str → ℕ
payload_size none = 0
payload_size (some text) = length text

-- `payload.as_ref().map_or(0, |data| data.len())`
abbrev pub payload_len : Transaction → ℕ
payload_len t = payload_size t.payload

abbrev within_limit : Option Str → Bool
within_limit none = true
within_limit (some text) = leb (length text) max_payload_bytes

unfoldable pub payload_within_limit : Transaction → Bool
payload_within_limit t = within_limit t.payload

unfoldable pub weight : Transaction → ℕ
weight t =
    add_u64
      (add_u64 (add_u64 (add_u64 (length t.id) (length t.sender)) (length t.receiver))
        (payload_len t))
      transaction_overhead

module _ ⦃crypto : Crypto⦄ where
  unfoldable pub compute_id : Str → Str → ℕ → ℕ → Option Str → Str
  compute_id sender receiver amount nonce payload =
      crypto.hex_encode (crypto.sha256 (canonical_bytes sender receiver amount nonce payload))

  unfoldable pub unsigned_with_payload : Str → Str → ℕ → ℕ → Option Str → Transaction
  unsigned_with_payload sender receiver amount nonce payload = record {
    id = compute_id sender receiver amount nonce payload;
    sender = sender;
    receiver = receiver;
    amount = amount;
    nonce = nonce;
    payload = payload;
    signature = none;
  }

  unfoldable pub unsigned : Str → Str → ℕ → ℕ → Transaction
  unsigned sender receiver amount nonce = unsigned_with_payload sender receiver amount nonce none

  unfoldable pub signed_with_payload : Str → Str → ℕ → ℕ → Option Str → Signature → Transaction
  unfolding unsigned_with_payload
  signed_with_payload sender receiver amount nonce payload signature =
      record (unsigned_with_payload sender receiver amount nonce payload) {
        signature = some signature;
      }

  unfoldable pub signed : Str → Str → ℕ → ℕ → Signature → Transaction
  unfolding signed_with_payload
  signed sender receiver amount nonce signature =
      signed_with_payload sender receiver amount nonce none signature

  unfoldable pub new_with_payload : Str → Str → ℕ → ℕ → Option Str → SigningKey → Transaction
  unfolding unsigned_with_payload
  new_with_payload sender receiver amount nonce payload signing_key =
      let transaction = unsigned_with_payload sender receiver amount nonce payload in
      record transaction {
        signature = some (crypto.sign signing_key (signing_payload transaction));
      }

  -- `Transaction::new`
  unfoldable pub new : Str → Str → ℕ → ℕ → SigningKey → Transaction
  unfolding new_with_payload
  new sender receiver amount nonce signing_key =
      new_with_payload sender receiver amount nonce none signing_key

  unfoldable pub has_valid_id : Transaction → Bool
  has_valid_id t = t.id == compute_id t.sender t.receiver t.amount t.nonce t.payload

  verify_signature : Transaction → VerifyingKey → Option Signature → Bool
  verify_signature t key none = false
  verify_signature t key (some signature) =
      has_valid_id t && crypto.verify key (signing_payload t) signature

  unfoldable pub verify : Transaction → VerifyingKey → Bool
  unfolding verify_signature
  verify t key = verify_signature t key t.signature
