-- ===== src/Transaction/Signing.antt =====
-- A transaction that the code builds and signs passes the code's own checks.
use block_rock.Base.{ℕ, ◌≡◌, refl, true, Option, Str, ==_refl}
use block_rock.Crypto.{Crypto, SigningKey, SignsVerifiably}
use block_rock.Transaction.{
  unsigned_with_payload, signed_with_payload, new_with_payload, signing_payload, has_valid_id,
  verify,
}

module _ ⦃crypto : Crypto⦄ where
  -- If signatures verify, a transaction that is made with a signing key has a valid id and verifies under the public half
  -- of that key; and a client's signature over the same content is accepted in its place: the
  -- rebuilt transaction is the same.
  pub new_with_payload-verify :
      (sender receiver : Str) (amount nonce : ℕ) (payload : Option Str) (key : SigningKey)
      → SignsVerifiably crypto
      → let t = new_with_payload sender receiver amount nonce payload key in
        (has_valid_id t ≡ true)
        × (verify t (crypto.verifying_key key) ≡ true)
        × (signed_with_payload sender receiver amount nonce payload
              (crypto.sign key (signing_payload t))
            ≡ t)
  unfolding new_with_payload signed_with_payload unsigned_with_payload has_valid_id verify
      signing_payload
  new_with_payload-verify sender receiver amount nonce payload key law =
      (==_refl _, rw (==_refl, law), refl)
