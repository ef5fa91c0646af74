-- ===== src/Ledger/Append.antt =====
-- A valid chain is extended by a block that is valid after it. What the set of seen ids holds
-- matters, and not how it is kept.
use block_rock.Base.{
  ℕ, suc, ◌+◌, ◌%◌, ◌≡◌, refl, ◌||◌, List, [], ◌∷◌, ◌++◌, Str, member, set_insert,
  member-set_insert, length, u32_mod, arith,
}
use block_rock.Crypto.{Crypto}
use block_rock.Transaction.{Transaction}
use block_rock.Block.{Block}
use block_rock.Ledger.{LedgerState, Keys}
use block_rock.Ledger.Settle.{settled}
use block_rock.Ledger.Valid.{
  settled_all, noted_all, settled_chain, noted_chain, AllAdmissible, ValidBlock, ValidFrom,
}
use block_rock.Ledger.Distinct.{ids, chain_ids, member-noted_all, member-append}

-- The hash that the next block has to link to.
unfoldable pub hash_after : Str → List Block → Str
hash_after previous [] = previous
hash_after previous (b ∷ bs) = hash_after b.hash bs

abbrev pub SameMembers : List Str → List Str → Type 0
SameMembers s s' = (i : Str) → member i s ≡ member i s'

pub member-noted_chain :
    (i : Str) (seen : List Str) (bs : List Block)
    → member i (noted_chain seen bs) ≡ (member i seen || member i (chain_ids bs))
unfolding noted_chain chain_ids member
member-noted_chain i seen [] = ground arith
member-noted_chain i seen (b ∷ bs) = ground (
  arith,
  member-noted_chain i (noted_all seen b.transactions) bs,
  member-noted_all i seen b.transactions,
  member-append i (ids b.transactions) (chain_ids bs),
)

pub settled_chain-append :
    (state : LedgerState) (bs : List Block) (b : Block)
    → settled_chain state (bs ++ b ∷ []) ≡ settled_all (settled_chain state bs) b.transactions
unfolding settled_chain
settled_chain-append state [] b = refl
settled_chain-append state (x ∷ bs) b = settled_chain-append (settled_all state x.transactions) bs b

module _ ⦃crypto : Crypto⦄ where
  AllAdmissible-seen :
      (keys : Keys) (state : LedgerState) (seen seen' : List Str) (ts : List Transaction)
      → SameMembers seen seen'
      → AllAdmissible keys state seen ts
      → AllAdmissible keys state seen' ts
  AllAdmissible-seen keys state seen seen' [] same a = tt
  AllAdmissible-seen keys state seen seen' (t ∷ ts) same a = (
    record {
      intact = a.0.intact;
      fresh = rw (← same t.id) a.0.fresh;
      small = a.0.small;
      authorized = a.0.authorized;
      room = a.0.room;
    },
    AllAdmissible-seen keys (settled state t) (set_insert t.id seen) (set_insert t.id seen') ts
        (λ i. ground (arith, member-set_insert i t.id seen, member-set_insert i t.id seen', same i))
        a.1,
  )

  module _ (authorities : List Str) (keys : Keys) where
    pub ValidBlock-seen :
        (index : ℕ) (previous : Str) (state : LedgerState) (seen seen' : List Str) (b : Block)
        → SameMembers seen seen'
        → ValidBlock authorities keys index previous state seen b
        → ValidBlock authorities keys index previous state seen' b
    ValidBlock-seen index previous state seen seen' b same v = record {
      in_place = v.in_place;
      linked = v.linked;
      hashed = v.hashed;
      sealed = v.sealed;
      admissible = AllAdmissible-seen keys state seen seen' b.transactions same v.admissible;
    }

    pub ValidFrom-append :
        (index : ℕ) (previous : Str) (state : LedgerState) (seen : List Str) (bs : List Block)
        (b : Block)
        → ValidFrom authorities keys index previous state seen bs
        → ValidBlock authorities keys
            ((index + length bs) % u32_mod)
            (hash_after previous bs)
            (settled_chain state bs)
            (noted_chain seen bs)
            b
        → ValidFrom authorities keys index previous state seen (bs ++ b ∷ [])
    unfolding hash_after settled_chain noted_chain
    ValidFrom-append index previous state seen [] b v w =
        let e : index + 0 ≡ index = omega arith in (rw e at w, tt)
    ValidFrom-append index previous state seen (x ∷ bs) b v w =
        let e : index + suc (length bs) ≡ suc index + length bs = omega arith in
        (
          v.0,
          ValidFrom-append (suc index) x.hash (settled_all state x.transactions)
              (noted_all seen x.transactions) bs b v.1 (rw e at w),
        )
