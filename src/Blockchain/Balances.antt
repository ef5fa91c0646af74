-- ===== src/Blockchain/Balances.antt =====
-- `get_blocks` and `get_balances` of blockrock-core/src/blockchain.rs: the views that the interfaces
-- show. The stable `sort_by` of the standard library is an insertion sort.
use mathlib.Core.List.{Perm}
use mathlib.Core.List.Perm
use block_rock.Base.{
  ℕ, ◌≡◌, true, false, Bool-cases, inl, inr, List, [], ◌∷◌, Str, if◌then◌else◌, All, Map, arith,
}
use block_rock.Block.{Block}
use block_rock.Mempool.{str_cmp, is_le}
use block_rock.Mempool.Order.{str_cmp_refl, str_cmp→eq, str_cmp_swap, str_cmp_trans}
use block_rock.Blockchain.{Blockchain}

unfoldable pub get_blocks : Blockchain → List Block
get_blocks chain = chain.blocks

unfoldable pub insert_by_name : Str × ℕ → List (Str × ℕ) → List (Str × ℕ)
unfolding str_cmp
insert_by_name a [] = a ∷ []
insert_by_name a (b ∷ bs) = if is_le (str_cmp a.0 b.0) then a ∷ b ∷ bs else b ∷ insert_by_name a bs

unfoldable pub sort_by_name : Map ℕ → List (Str × ℕ)
unfolding insert_by_name
sort_by_name [] = []
sort_by_name (a ∷ as') = insert_by_name a (sort_by_name as')

unfoldable pub get_balances : Blockchain → List (Str × ℕ)
unfolding sort_by_name
get_balances chain = sort_by_name chain.balances

-- Not after, in the order of the names.
abbrev pub NotAfter : Str × ℕ → Str × ℕ → Type 0
NotAfter a b = is_le (str_cmp a.0 b.0) ≡ true

abbrev pub IsByName : List (Str × ℕ) → Type 0
IsByName [] = Unit
IsByName (a ∷ as') = All (NotAfter a) as' × IsByName as'

NotAfter-trans : (a b c : Str × ℕ) → NotAfter a b → NotAfter b c → NotAfter a c
NotAfter-trans a b c h k =
    ground
      (arith, str_cmp_trans a.0 b.0 c.0, str_cmp→eq a.0 b.0, str_cmp→eq b.0 c.0, str_cmp_refl a.0)

NotAfter-total : (a b : Str × ℕ) → is_le (str_cmp a.0 b.0) ≡ false → NotAfter b a
NotAfter-total a b h = ground (arith, str_cmp_swap a.0 b.0)

NotAfter-All :
    (a b : Str × ℕ) (cs : List (Str × ℕ)) → NotAfter a b → All (NotAfter b) cs → All (NotAfter a) cs
NotAfter-All a b [] h k = tt
NotAfter-All a b (c ∷ cs) h k = (NotAfter-trans a b c h k.0, NotAfter-All a b cs h k.1)

insert_by_name-All :
    (P : Str × ℕ → Type 0) (a : Str × ℕ) (bs : List (Str × ℕ))
    → P a
    → All P bs
    → All P (insert_by_name a bs)
unfolding insert_by_name
insert_by_name-All P a [] p h = (p, tt)
insert_by_name-All P a (b ∷ bs) p h = elim (Bool-cases (is_le (str_cmp a.0 b.0))) [
  | inl le ↦ rw le (p, h)
  | inr gt ↦ rw gt (h.0, insert_by_name-All P a bs p h.1)
]

insert_by_name-IsByName :
    (a : Str × ℕ) (bs : List (Str × ℕ)) → IsByName bs → IsByName (insert_by_name a bs)
unfolding insert_by_name
insert_by_name-IsByName a [] s = (tt, tt)
insert_by_name-IsByName a (b ∷ bs) s = elim (Bool-cases (is_le (str_cmp a.0 b.0))) [
  | inl le ↦ rw le ((le, NotAfter-All a b bs le s.0), s)
  | inr gt ↦ rw gt (
    insert_by_name-All (NotAfter b) a bs (NotAfter-total a b gt) s.0,
    insert_by_name-IsByName a bs s.1,
  )
]

insert_by_name-perm : (a : Str × ℕ) (bs : List (Str × ℕ)) → Perm (insert_by_name a bs) (a ∷ bs)
unfolding insert_by_name
insert_by_name-perm a [] = Perm.refl (a ∷ [])
insert_by_name-perm a (b ∷ bs) = elim (Bool-cases (is_le (str_cmp a.0 b.0))) [
  | inl le ↦ rw le (Perm.refl (a ∷ b ∷ bs))
  | inr gt ↦ rw gt (Perm.trans (Perm.cons b (insert_by_name-perm a bs)) (Perm.swap a b bs))
]

sort_by_name_lem : (m : Map ℕ) → Perm (sort_by_name m) m × IsByName (sort_by_name m)
unfolding sort_by_name
sort_by_name_lem [] = (Perm.refl [], tt)
sort_by_name_lem (a ∷ m) =
    let s = sort_by_name_lem m in
    (
      Perm.trans (insert_by_name-perm a (sort_by_name m)) (Perm.cons a s.0),
      insert_by_name-IsByName a (sort_by_name m) s.1,
    )

-- The balances are shown each once, in the order of the names' bytes.
pub get_balances_lem :
    (chain : Blockchain) → Perm (get_balances chain) chain.balances × IsByName (get_balances chain)
unfolding get_balances
get_balances_lem chain = sort_by_name_lem chain.balances
