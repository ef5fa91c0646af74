-- ===== src/Ledger/Distinct.antt =====
-- No transaction is on a valid chain twice.
use block_rock.Base.{
  ℕ, suc, ◌≡◌, refl, true, false, ◌||◌, List, [], ◌∷◌, ◌++◌, map, Str, ok, member, set_insert,
  member-set_insert, arith, ==_refl,
}
use block_rock.Crypto.{Crypto}
use block_rock.Transaction.{Transaction}
use block_rock.Block.{Block}
use block_rock.Ledger.{LedgerState, Keys, replay_from}
use block_rock.Ledger.Settle.{settled}
use block_rock.Ledger.Valid.{settled_all, noted_all, AllAdmissible, ValidFrom, valid_of_replay_from}

abbrev pub ids : List Transaction → List Str
ids = map λ t. t.id

unfoldable pub chain_ids : List Block → List Str
chain_ids [] = []
chain_ids (b ∷ bs) = ids b.transactions ++ chain_ids bs

abbrev pub Distinct : List Str → Type 0
Distinct [] = Unit
Distinct (i ∷ is) = (member i is ≡ false) × Distinct is

pub member-append :
    (i : Str) (xs ys : List Str) → member i (xs ++ ys) ≡ (member i xs || member i ys)
unfolding member
member-append i [] ys = refl
member-append i (x ∷ xs) ys = ground (arith, member-append i xs ys)

pub Distinct-append :
    (xs ys : List Str)
    → Distinct xs
    → Distinct ys
    → ((i : Str) → member i xs ≡ true → member i ys ≡ false)
    → Distinct (xs ++ ys)
unfolding member
Distinct-append [] ys dx dy apart = dy
Distinct-append (x ∷ xs) ys dx dy apart = (
  ground (arith, member-append x xs ys, apart x, ==_refl x),
  Distinct-append xs ys dx.1 dy (λ i h. ground (arith, apart i)),
)

pub member-noted_all :
    (i : Str) (seen : List Str) (ts : List Transaction)
    → member i (noted_all seen ts) ≡ (member i seen || member i (ids ts))
unfolding noted_all member
member-noted_all i seen [] = ground arith
member-noted_all i seen (t ∷ ts) =
    ground (arith, member-noted_all i (set_insert t.id seen) ts, member-set_insert i t.id seen)

module _ ⦃crypto : Crypto⦄ where
  -- An id that was seen is not in what is admissible.
  pub AllAdmissible-fresh :
      (keys : Keys) (state : LedgerState) (seen : List Str) (ts : List Transaction) (i : Str)
      → AllAdmissible keys state seen ts
      → member i seen ≡ true
      → member i (ids ts) ≡ false
  unfolding member
  AllAdmissible-fresh keys state seen [] i a h = refl
  AllAdmissible-fresh keys state seen (t ∷ ts) i a h = ground (
    arith,
    AllAdmissible-fresh keys (settled state t) (set_insert t.id seen) ts i a.1,
    member-set_insert i t.id seen,
    a.0.fresh,
  )

  pub AllAdmissible-Distinct :
      (keys : Keys) (state : LedgerState) (seen : List Str) (ts : List Transaction)
      → AllAdmissible keys state seen ts
      → Distinct (ids ts)
  AllAdmissible-Distinct keys state seen [] a = tt
  AllAdmissible-Distinct keys state seen (t ∷ ts) a = (
    AllAdmissible-fresh keys (settled state t) (set_insert t.id seen) ts t.id a.1
        (rw (member-set_insert t.id t.id seen, ==_refl t.id)),
    AllAdmissible-Distinct keys (settled state t) (set_insert t.id seen) ts a.1,
  )

  module _ (authorities : List Str) (keys : Keys) where
    ValidFrom-fresh :
        (index : ℕ) (previous : Str) (state : LedgerState) (seen : List Str) (bs : List Block)
        (i : Str)
        → ValidFrom authorities keys index previous state seen bs
        → member i seen ≡ true
        → member i (chain_ids bs) ≡ false
    unfolding chain_ids member
    ValidFrom-fresh index previous state seen [] i v h = refl
    ValidFrom-fresh index previous state seen (b ∷ bs) i v h = ground (
      arith,
      member-append i (ids b.transactions) (chain_ids bs),
      AllAdmissible-fresh keys state seen b.transactions i v.0.admissible,
      ValidFrom-fresh (suc index) b.hash (settled_all state b.transactions)
          (noted_all seen b.transactions) bs i v.1,
      member-noted_all i seen b.transactions,
    )

    pub ValidFrom-Distinct :
        (index : ℕ) (previous : Str) (state : LedgerState) (seen : List Str) (bs : List Block)
        → ValidFrom authorities keys index previous state seen bs
        → Distinct (chain_ids bs)
    unfolding chain_ids
    ValidFrom-Distinct index previous state seen [] v = tt
    ValidFrom-Distinct index previous state seen (b ∷ bs) v =
        Distinct-append (ids b.transactions) (chain_ids bs)
          (AllAdmissible-Distinct keys state seen b.transactions v.0.admissible)
          (ValidFrom-Distinct (suc index) b.hash _ _ bs v.1)
          λ i h.
            ValidFrom-fresh (suc index) b.hash _ _ bs i v.1
              (ground (arith, member-noted_all i seen b.transactions))

    -- If a chain replays, all transaction ids on it are distinct, and none was seen before.
    pub replay_from-Distinct :
        (index : ℕ) (previous : Str) (state : LedgerState) (seen : List Str) (bs : List Block)
        {r : LedgerState × List Str}
        → replay_from authorities keys index previous state seen bs ≡ ok r
        → Distinct (chain_ids bs)
          × ((i : Str) → member i seen ≡ true → member i (chain_ids bs) ≡ false)
    replay_from-Distinct index previous state seen bs h =
        let (v, e) = valid_of_replay_from authorities keys index previous state seen bs h in
        (
          ValidFrom-Distinct index previous state seen bs v,
          λ i seen_before. ValidFrom-fresh index previous state seen bs i v seen_before,
        )
