-- ===== src/Crypto.antt =====
-- The third-party crates that blockrock-core calls: ed25519-dalek, sha2, blake2 and hex. Their
-- functions are parameters. Keys and signatures are known by their byte encodings (`to_bytes`),
-- which is how the crate compares them.
use block_rock.Base.{◌≡◌, true, Bool, Result, Bytes, Str}

abbrev pub VerifyingKey : Type 0
VerifyingKey = Bytes

abbrev pub SigningKey : Type 0
SigningKey = Bytes

abbrev pub Signature : Type 0
Signature = Bytes

pub record Crypto : Type 0 where
  -- `SigningKey::verifying_key`, `SigningKey::sign` and `VerifyingKey::verify(..).is_ok()`
  pub verifying_key : SigningKey → VerifyingKey
  pub sign : SigningKey → Bytes → Signature
  pub verify : VerifyingKey → Bytes → Signature → Bool
  -- `Sha256::digest`, the output of `Blake2b512`, and `hex::encode`
  pub sha256 : Bytes → Bytes
  pub blake2b512 : Bytes → Bytes
  pub hex_encode : Bytes → Str
  -- `hex::decode` and `VerifyingKey::from_bytes`, an error by its text
  pub hex_decode : Str → Result Str Bytes
  pub from_bytes : Bytes → Result Str VerifyingKey

-- What ed25519 documents: a signature made with a key verifies under that key's public half.
abbrev pub SignsVerifiably : Crypto → Type 0
SignsVerifiably c =
    (k : SigningKey) (message : Bytes)
    → c.verify (c.verifying_key k) message (c.sign k message) ≡ true
