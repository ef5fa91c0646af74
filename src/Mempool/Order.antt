-- ===== src/Mempool/Order.antt =====
-- The order in which blockrock-core/src/mempool.rs drains the pool, and the sorted list.
use Prim.Native.Nat.{Ordering}
use mathlib.Core.List.{Perm}
use mathlib.Core.List.Perm
use block_rock.Base.{
  suc, ◌≤◌, ◌≡◌, refl, true, false, inl, inr, List, [], ◌∷◌, Str, Bool-cases, All, length, arith,
}
use block_rock.Transaction.{Transaction}
use block_rock.Mempool.{str_cmp, sender_nonce_cmp, is_le, insert_sorted, sort}

pub str_cmp_refl : (a : Str) → str_cmp a a ≡ Ordering.eq
unfolding str_cmp
str_cmp_refl [] = refl
str_cmp_refl (x ∷ a) = ground (arith, str_cmp_refl a)

pub str_cmp→eq : (a b : Str) → str_cmp a b ≡ Ordering.eq → a ≡ b
unfolding str_cmp
str_cmp→eq [] [] h = refl
str_cmp→eq [] (y ∷ b) h = cc
str_cmp→eq (x ∷ a) [] h = cc
str_cmp→eq (x ∷ a) (y ∷ b) h = ground (arith, str_cmp→eq a b)

pub str_cmp_swap : (a b : Str) → str_cmp a b ≡ Ordering.gt → str_cmp b a ≡ Ordering.lt
unfolding str_cmp
str_cmp_swap [] [] h = cc
str_cmp_swap [] (y ∷ b) h = cc
str_cmp_swap (x ∷ a) [] h = refl
str_cmp_swap (x ∷ a) (y ∷ b) h = ground (arith, str_cmp_swap a b)

pub str_cmp_trans :
    (a b c : Str)
    → str_cmp a b ≡ Ordering.lt
    → str_cmp b c ≡ Ordering.lt
    → str_cmp a c ≡ Ordering.lt
unfolding str_cmp
str_cmp_trans [] [] c h k = cc
str_cmp_trans [] (y ∷ b) [] h k = cc
str_cmp_trans [] (y ∷ b) (z ∷ c) h k = refl
str_cmp_trans (x ∷ a) [] c h k = cc
str_cmp_trans (x ∷ a) (y ∷ b) [] h k = cc
str_cmp_trans (x ∷ a) (y ∷ b) (z ∷ c) h k = ground (arith, str_cmp_trans a b c)

-- Not after, in the order of `drain`.
abbrev pub Precedes : Transaction → Transaction → Type 0
Precedes t u = is_le (sender_nonce_cmp t u) ≡ true

pub Precedes-trans : (t u v : Transaction) → Precedes t u → Precedes u v → Precedes t v
unfolding sender_nonce_cmp
Precedes-trans t u v h k = ground (
  arith,
  str_cmp_trans t.sender u.sender v.sender,
  str_cmp→eq t.sender u.sender,
  str_cmp→eq u.sender v.sender,
  str_cmp_refl t.sender,
)

pub Precedes-total : (t u : Transaction) → is_le (sender_nonce_cmp t u) ≡ false → Precedes u t
unfolding sender_nonce_cmp
Precedes-total t u h =
    ground
      (arith, str_cmp_swap t.sender u.sender, str_cmp→eq t.sender u.sender, str_cmp_refl t.sender)

pub Precedes-same_sender :
    (t u : Transaction) → t.sender ≡ u.sender → Precedes t u → t.nonce ≤ u.nonce
unfolding sender_nonce_cmp
Precedes-same_sender t u e h = ground (arith, str_cmp_refl t.sender)

abbrev pub IsSorted : List Transaction → Type 0
IsSorted [] = Unit
IsSorted (t ∷ ts) = All (Precedes t) ts × IsSorted ts

module _ {ℓ} (P : Transaction → Type ℓ) where
  pub insert_sorted-All :
      (t : Transaction) (ts : List Transaction) → P t → All P ts → All P (insert_sorted t ts)
  unfolding insert_sorted
  insert_sorted-All t [] p h = (p, tt)
  insert_sorted-All t (u ∷ us) p h = elim (Bool-cases (is_le (sender_nonce_cmp t u))) [
    | inl le ↦ rw le (p, h)
    | inr gt ↦ rw gt (h.0, insert_sorted-All t us p h.1)
  ]

  pub sort-All : (ts : List Transaction) → All P ts → All P (sort ts)
  unfolding sort
  sort-All [] h = tt
  sort-All (t ∷ ts) h = insert_sorted-All t (sort ts) h.0 (sort-All ts h.1)

pub Precedes-All :
    (t u : Transaction) (us : List Transaction)
    → Precedes t u
    → All (Precedes u) us
    → All (Precedes t) us
Precedes-All t u [] h k = tt
Precedes-All t u (v ∷ us) h k = (Precedes-trans t u v h k.0, Precedes-All t u us h k.1)

insert_sorted-IsSorted :
    (t : Transaction) (ts : List Transaction) → IsSorted ts → IsSorted (insert_sorted t ts)
unfolding insert_sorted
insert_sorted-IsSorted t [] s = (tt, tt)
insert_sorted-IsSorted t (u ∷ us) s = elim (Bool-cases (is_le (sender_nonce_cmp t u))) [
  | inl le ↦ rw le ((le, Precedes-All t u us le s.0), s)
  | inr gt ↦ rw gt (
    insert_sorted-All (Precedes u) t us (Precedes-total t u gt) s.0,
    insert_sorted-IsSorted t us s.1,
  )
]

pub sort-IsSorted : (ts : List Transaction) → IsSorted (sort ts)
unfolding sort
sort-IsSorted [] = tt
sort-IsSorted (t ∷ ts) = insert_sorted-IsSorted t (sort ts) (sort-IsSorted ts)

insert_sorted-perm : (t : Transaction) (ts : List Transaction) → Perm (insert_sorted t ts) (t ∷ ts)
unfolding insert_sorted
insert_sorted-perm t [] = Perm.refl (t ∷ [])
insert_sorted-perm t (u ∷ us) = elim (Bool-cases (is_le (sender_nonce_cmp t u))) [
  | inl le ↦ rw le (Perm.refl (t ∷ u ∷ us))
  | inr gt ↦ rw gt (Perm.trans (Perm.cons u (insert_sorted-perm t us)) (Perm.swap t u us))
]

pub sort-perm : (ts : List Transaction) → Perm (sort ts) ts
unfolding sort
sort-perm [] = Perm.refl []
sort-perm (t ∷ ts) = Perm.trans (insert_sorted-perm t (sort ts)) (Perm.cons t (sort-perm ts))

length-insert_sorted :
    (t : Transaction) (ts : List Transaction) → length (insert_sorted t ts) ≡ suc (length ts)
unfolding insert_sorted
length-insert_sorted t [] = refl
length-insert_sorted t (u ∷ us) = ground (arith, length-insert_sorted t us)

pub length-sort : (ts : List Transaction) → length (sort ts) ≡ length ts
unfolding sort
length-sort [] = refl
length-sort (t ∷ ts) = omega (arith, length-insert_sorted t (sort ts), length-sort ts)
