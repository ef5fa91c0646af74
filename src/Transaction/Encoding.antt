-- ===== src/Transaction/Encoding.antt =====
-- The canonical bytes of blockrock-core/src/transaction.rs can be read in one way only.
use native.Mathlib.Nat.{pow-suc}
use mathlib.Core.List.{append_assoc}
use block_rock.Base.{
  ℕ, zero, suc, ◌*◌, ◌/◌, ◌^◌, ◌<◌, ◌≡◌, ◌≢◌, refl, sym, ap, ◌∙◌, ◌⊎◌, inl, inr, Option, some, none,
  List, [], ◌∷◌, ◌++◌, Bytes, Str, Bytes-discrete, true, length, to_le_bytes, length-to_le_bytes,
  u64_mod, arith,
}
use block_rock.Crypto.{Crypto}
use block_rock.Transaction.{
  Transaction, transaction_domain, prefixed, payload_bytes, canonical_bytes, signing_payload,
  has_valid_id, compute_id,
}

pub append_split {ℓ} :
    {A : Type ℓ} (xs ys us vs : List A)
    → length xs ≡ length ys
    → xs ++ us ≡ ys ++ vs
    → (xs ≡ ys) × (us ≡ vs)
append_split [] [] us vs h e = (refl, e)
append_split [] (y ∷ ys) us vs h e = absurd (omega arith)
append_split (x ∷ xs) [] us vs h e = absurd (omega arith)
append_split (x ∷ xs) (y ∷ ys) us vs h e = ground (arith, append_split xs ys us vs)

-- `n` little-endian bytes determine a number that fits in them.
pub to_le_bytes-injective :
    (n x y : ℕ) → x < 256 ^ n → y < 256 ^ n → to_le_bytes n x ≡ to_le_bytes n y → x ≡ y
unfolding to_le_bytes
to_le_bytes-injective zero x y hx hy e = omega arith
to_le_bytes-injective (suc n) x y hx hy e =
    let p : 256 ^ suc n ≡ 256 * 256 ^ n = omega (arith, pow-suc 256 n) in
    ground (arith, to_le_bytes-injective n (x / 256) (y / 256), p)

u64_bytes-injective :
    (x y : ℕ) → x < u64_mod → y < u64_mod → to_le_bytes 8 x ≡ to_le_bytes 8 y → x ≡ y
u64_bytes-injective = to_le_bytes-injective 8

-- A u64, and what follows it.
pub u64_split :
    (x y : ℕ) (us vs : Bytes)
    → x < u64_mod
    → y < u64_mod
    → to_le_bytes 8 x ++ us ≡ to_le_bytes 8 y ++ vs
    → (x ≡ y) × (us ≡ vs)
u64_split x y us vs hx hy e =
    let (p, q) =
      append_split (to_le_bytes 8 x) (to_le_bytes 8 y) us vs
        (length-to_le_bytes 8 x ∙ sym (length-to_le_bytes 8 y)) e in
    (u64_bytes-injective x y hx hy p, q)

-- A field behind its length, and what follows it.
prefixed_split :
    (f g us vs : Bytes)
    → length f < u64_mod
    → length g < u64_mod
    → prefixed f ++ us ≡ prefixed g ++ vs
    → (f ≡ g) × (us ≡ vs)
unfolding prefixed
prefixed_split f g us vs hf hg e =
    let e' : to_le_bytes 8 (length f) ++ (f ++ us) ≡ to_le_bytes 8 (length g) ++ (g ++ vs) =
      sym (append_assoc (to_le_bytes 8 (length f)) f us)
      ∙ e
      ∙ append_assoc (to_le_bytes 8 (length g)) g vs in
    let (len, rest) = u64_split (length f) (length g) (f ++ us) (g ++ vs) hf hg e' in
    append_split f g us vs len rest

abbrev FitsU64 : Option Str → Type 0
FitsU64 none = Unit
FitsU64 (some text) = length text < u64_mod

payload_bytes-injective :
    (p q : Option Str) → FitsU64 p → FitsU64 q → payload_bytes p ≡ payload_bytes q → p ≡ q
unfolding payload_bytes
payload_bytes-injective none none hp hq e = refl
payload_bytes-injective none (some g) hp hq e = cc
payload_bytes-injective (some f) none hp hq e = cc
payload_bytes-injective (some f) (some g) hp hq e =
    let h : prefixed f ≡ prefixed g = ground arith in
    let e' : prefixed f ++ [] ≡ prefixed g ++ [] = ap (λ (x : Bytes). x ++ []) h in
    ap some (prefixed_split f g [] [] hp hq e').0

-- The lengths and numbers of a transaction fit in a u64, as they do in memory.
pub record InRange (t : Transaction) : Type 0 where
  pub sender : length t.sender < u64_mod
  pub receiver : length t.receiver < u64_mod
  pub amount : t.amount < u64_mod
  pub nonce : t.nonce < u64_mod
  pub payload : FitsU64 t.payload

-- The signed content of two transactions is the same.
pub record SameContent (t u : Transaction) : Type 0 where
  pub sender : t.sender ≡ u.sender
  pub receiver : t.receiver ≡ u.receiver
  pub amount : t.amount ≡ u.amount
  pub nonce : t.nonce ≡ u.nonce
  pub payload : t.payload ≡ u.payload

-- Two transactions whose canonical bytes are equal have the same content, field by field, if their
-- numbers and the lengths of their strings are in the range of a u64.
pub signing_payload-injective :
    (t u : Transaction)
    → InRange t
    → InRange u
    → signing_payload t ≡ signing_payload u
    → SameContent t u
unfolding signing_payload canonical_bytes
signing_payload-injective t u ht hu e =
    let (_, e1) = append_split transaction_domain transaction_domain _ _ refl e in
    let (sender, e2) = prefixed_split t.sender u.sender _ _ ht.sender hu.sender e1 in
    let (receiver, e3) = prefixed_split t.receiver u.receiver _ _ ht.receiver hu.receiver e2 in
    let (amount, e4) = u64_split t.amount u.amount _ _ ht.amount hu.amount e3 in
    let (nonce, e5) = u64_split t.nonce u.nonce _ _ ht.nonce hu.nonce e4 in
    record {
      sender = sender;
      receiver = receiver;
      amount = amount;
      nonce = nonce;
      payload = payload_bytes-injective t.payload u.payload ht.payload hu.payload e5;
    }

-- Two byte strings with one id: a collision of SHA-256 in hexadecimal.
pub record Collision ⦃crypto : Crypto⦄ (a b : Bytes) : Type 0 where
  pub differ : a ≢ b
  pub collide : crypto.hex_encode (crypto.sha256 a) ≡ crypto.hex_encode (crypto.sha256 b)

-- Two transactions with valid ids that share their id have the same content, or their canonical
-- bytes are a collision of the hash, if their numbers and the lengths of their strings are in the
-- range of a u64.
pub same_id :
    ⦃crypto : Crypto⦄ (t u : Transaction)
    → InRange t
    → InRange u
    → has_valid_id t ≡ true
    → has_valid_id u ≡ true
    → t.id ≡ u.id
    → SameContent t u ⊎ Collision (signing_payload t) (signing_payload u)
unfolding has_valid_id compute_id signing_payload
same_id t u ht hu vt vu e = elim (Bytes-discrete (signing_payload t) (signing_payload u)) [
  | yes same ↦ inl (signing_payload-injective t u ht hu same)
  | no different ↦ inr (record { differ = different; collide = ground arith })
]
