-- ===== src/Mempool/Turns.antt =====
-- The transactions of one sender in the pool, and what sorting does to them.
use block_rock.Base.{
  ℕ, suc, ◌+◌, ◌≤◌, ◌<◌, ◌≡◌, ◌≢◌, refl, sym, ◌∙◌, false, inl, inr, List, [], ◌∷◌, ◌++◌, Str,
  Bytes-discrete, ==_refl, Bool-cases, All, length, length-append, arith, member,
}
use block_rock.Transaction.{Transaction}
use block_rock.Mempool.{is_le, sender_nonce_cmp, insert_sorted, sort, from_sender}
use block_rock.Ledger.Distinct.{ids, Distinct}
use block_rock.Mempool.Order.{Precedes, Precedes-All, Precedes-same_sender, IsSorted, sort-IsSorted}

-- The nonces run from `n` on without a gap.
abbrev pub Turns : ℕ → List Transaction → Type 0
Turns n [] = Unit
Turns n (t ∷ ts) = (t.nonce ≡ n) × Turns (suc n) ts

-- The amounts, added without wrapping.
unfoldable pub spent : List Transaction → ℕ
spent [] = 0
spent (t ∷ ts) = t.amount + spent ts

Turns-append :
    (n : ℕ) (ts : List Transaction) (t : Transaction)
    → Turns n ts
    → t.nonce ≡ n + length ts
    → Turns n (ts ++ t ∷ [])
Turns-append n [] t h e = (omega arith, tt)
Turns-append n (u ∷ ts) t h e = (h.0, Turns-append (suc n) ts t h.1 (omega arith))

module _ (s : Str) where
  from_sender_none : (ts : List Transaction) → All (λ t. t.sender ≢ s) ts → from_sender s ts ≡ []
  unfolding from_sender
  from_sender_none [] h = refl
  from_sender_none (t ∷ ts) h = ground (arith, from_sender_none ts h.1)

  pub from_sender_own :
      (t : Transaction) (ts : List Transaction)
      → t.sender ≡ s
      → from_sender s (t ∷ ts) ≡ t ∷ from_sender s ts
  unfolding from_sender
  from_sender_own t ts e = ground (arith, ==_refl s)

  pub from_sender_other :
      (t : Transaction) (ts : List Transaction)
      → t.sender ≢ s
      → from_sender s (t ∷ ts) ≡ from_sender s ts
  unfolding from_sender
  from_sender_other t ts e = ground arith

  Turns-below :
      (n b : ℕ) (ts : List Transaction)
      → Turns n (from_sender s ts)
      → n + length (from_sender s ts) ≤ b
      → All (λ t. t.sender ≡ s → t.nonce < b) ts
  Turns-below n b [] h le = tt
  Turns-below n b (t ∷ ts) h le = elim (Bytes-discrete t.sender s) [
    | yes own ↦
        let h' : (t.nonce ≡ n) × Turns (suc n) (from_sender s ts) =
          rw (from_sender_own t ts own) at h in
        let le' : n + suc (length (from_sender s ts)) ≤ b = rw (from_sender_own t ts own) at le in
        (λ _. omega arith, Turns-below (suc n) b ts h'.1 (omega arith))
    | no other ↦ (
      λ e. absurd (other e),
      Turns-below n b ts (rw (from_sender_other t ts other) at h)
          (rw (from_sender_other t ts other) at le),
    )
  ]

  no_other_after :
      (t : Transaction) (ts : List Transaction)
      → t.sender ≡ s
      → All (Precedes t) ts
      → All (λ u. u.sender ≡ s → u.nonce < t.nonce) ts
      → All (λ u. u.sender ≢ s) ts
  no_other_after t [] e h k = tt
  no_other_after t (u ∷ us) e h k = (
    λ same. absurd (omega (arith, Precedes-same_sender t u (e ∙ sym same) h.0, k.0 same)),
    no_other_after t us e h.1 k.1,
  )

  -- A transaction with the sender's highest nonce is sorted behind the sender's others.
  from_sender-insert_sorted_own :
      (t : Transaction) (ts : List Transaction)
      → t.sender ≡ s
      → IsSorted ts
      → All (λ u. u.sender ≡ s → u.nonce < t.nonce) ts
      → from_sender s (insert_sorted t ts) ≡ from_sender s ts ++ t ∷ []
  unfolding insert_sorted from_sender
  from_sender-insert_sorted_own t [] e o h = ground (arith, ==_refl s)
  from_sender-insert_sorted_own t (u ∷ us) e o h =
      elim (Bool-cases (is_le (sender_nonce_cmp t u))) [
        | inl le ↦
            let after : All (Precedes t) (u ∷ us) = (le, Precedes-All t u us le o.0) in
            ground
              (arith, from_sender_none (u ∷ us) (no_other_after t (u ∷ us) e after h), ==_refl s)
        | inr gt ↦ ground (arith, from_sender-insert_sorted_own t us e o.1 h.1)
      ]

  from_sender-insert_sorted_other :
      (t : Transaction) (ts : List Transaction)
      → t.sender ≢ s
      → from_sender s (insert_sorted t ts) ≡ from_sender s ts
  unfolding insert_sorted from_sender
  from_sender-insert_sorted_other t [] e = ground arith
  from_sender-insert_sorted_other t (u ∷ us) e =
      ground (arith, from_sender-insert_sorted_other t us)

  -- In the pool, the latest first, the nonces of a sender count up from the bottom.
  abbrev pub Stacked : ℕ → List Transaction → Type 0
  Stacked n [] = Unit
  Stacked n (t ∷ ts) = (t.sender ≡ s → t.nonce ≡ n + length (from_sender s ts)) × Stacked n ts

  -- Sorting puts the transactions of a sender in the order of their nonces.
  pub sort-Turns :
      (n : ℕ) (ts : List Transaction)
      → Stacked n ts
      → Turns n (from_sender s (sort ts))
        × (length (from_sender s (sort ts)) ≡ length (from_sender s ts))
  unfolding sort from_sender
  sort-Turns n [] h = (tt, refl)
  sort-Turns n (t ∷ ts) h =
      let (turns, len) = sort-Turns n ts h.1 in
      elim (Bytes-discrete t.sender s) [
        | yes own ↦
            let nonce : t.nonce ≡ n + length (from_sender s (sort ts)) = rw len (h.0 own) in
            let below : All (λ u. u.sender ≡ s → u.nonce < t.nonce) (sort ts) =
              Turns-below n t.nonce (sort ts) turns (omega arith) in
            rw
              (
                from_sender-insert_sorted_own t (sort ts) own (sort-IsSorted ts) below,
                from_sender_own t ts own,
              )
              (
                Turns-append n (from_sender s (sort ts)) t turns nonce,
                omega (arith, length-append (from_sender s (sort ts)) (t ∷ []), len),
              )
        | no other ↦
            rw (from_sender-insert_sorted_other t (sort ts) other, from_sender_other t ts other)
              (turns, len)
      ]

spent-insert_sorted :
    (s : Str) (t : Transaction) (ts : List Transaction)
    → spent (from_sender s (insert_sorted t ts)) ≡ spent (from_sender s (t ∷ ts))
unfolding insert_sorted from_sender spent
spent-insert_sorted s t [] = refl
spent-insert_sorted s t (u ∷ us) = ground (arith, spent-insert_sorted s t us)

pub spent-sort :
    (s : Str) (ts : List Transaction) → spent (from_sender s (sort ts)) ≡ spent (from_sender s ts)
unfolding sort from_sender spent
spent-sort s [] = refl
spent-sort s (t ∷ ts) = ground (arith, spent-insert_sorted s t (sort ts), spent-sort s ts)

member-insert_sorted :
    (i : Str) (t : Transaction) (ts : List Transaction)
    → member i (ids (insert_sorted t ts)) ≡ member i (ids (t ∷ ts))
unfolding insert_sorted member
member-insert_sorted i t [] = refl
member-insert_sorted i t (u ∷ us) = ground (arith, member-insert_sorted i t us)

pub member-sort : (i : Str) (ts : List Transaction) → member i (ids (sort ts)) ≡ member i (ids ts)
unfolding sort member
member-sort i [] = refl
member-sort i (t ∷ ts) = ground (arith, member-insert_sorted i t (sort ts), member-sort i ts)

Distinct-insert_sorted :
    (t : Transaction) (ts : List Transaction)
    → member t.id (ids ts) ≡ false
    → Distinct (ids ts)
    → Distinct (ids (insert_sorted t ts))
unfolding insert_sorted member
Distinct-insert_sorted t [] f d = (refl, tt)
Distinct-insert_sorted t (u ∷ us) f d =
    ground (arith, Distinct-insert_sorted t us, member-insert_sorted u.id t us)

pub Distinct-sort : (ts : List Transaction) → Distinct (ids ts) → Distinct (ids (sort ts))
unfolding sort
Distinct-sort [] d = tt
Distinct-sort (t ∷ ts) d =
    Distinct-insert_sorted t (sort ts) (rw member-sort d.0) (Distinct-sort ts d.1)
