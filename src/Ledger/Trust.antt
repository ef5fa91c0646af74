-- ===== src/Ledger/Trust.antt =====
-- Learning more keys and authorities never makes a valid chain invalid.
use block_rock.Base.{
  ℕ, suc, ◌%◌, u32_mod, ◌≡◌, inl, inr, true, some, List, [], ◌∷◌, Str, get, member, set_insert,
}
use block_rock.Crypto.{Crypto, VerifyingKey}
use block_rock.Transaction.{Transaction}
use block_rock.Block.{Block}
use block_rock.Ledger.{LedgerState, Keys}
use block_rock.Ledger.Settle.{settled, Admissible}
use block_rock.Ledger.Valid.{settled_all, noted_all, AllAdmissible, ValidBlock, ValidFrom}

-- Every binding of the first map is in the second.
abbrev pub Extends : Keys → Keys → Type 0
Extends keys keys' =
    (name : Str) (k : VerifyingKey) → get name keys ≡ some k → get name keys' ≡ some k

abbrev pub Includes : List Str → List Str → Type 0
Includes names names' = (name : Str) → member name names ≡ true → member name names' ≡ true

module _ ⦃crypto : Crypto⦄ (keys keys' : Keys) (more : Extends keys keys') where
  Admissible-mono :
      (state : LedgerState) (seen : List Str) (t : Transaction)
      → Admissible keys state seen t
      → Admissible keys' state seen t
  Admissible-mono state seen t a = record {
    intact = a.intact;
    fresh = a.fresh;
    small = a.small;
    authorized = elim a.authorized [
      | inl mint ↦ inl mint
      | inr (other, p) ↦ inr (
        other,
        record {
          key = p.key;
          known = more t.sender p.key p.known;
          signed = p.signed;
          in_turn = p.in_turn;
          funded = p.funded;
        },
      )
    ];
    room = a.room;
  }

  pub AllAdmissible-mono :
      (state : LedgerState) (seen : List Str) (ts : List Transaction)
      → AllAdmissible keys state seen ts
      → AllAdmissible keys' state seen ts
  AllAdmissible-mono state seen [] a = tt
  AllAdmissible-mono state seen (t ∷ ts) a = (
    Admissible-mono state seen t a.0,
    AllAdmissible-mono (settled state t) (set_insert t.id seen) ts a.1,
  )

  module _ (names names' : List Str) (wider : Includes names names') where
    pub ValidBlock-mono :
        (index : ℕ) (previous : Str) (state : LedgerState) (seen : List Str) (b : Block)
        → ValidBlock names keys index previous state seen b
        → ValidBlock names' keys' index previous state seen b
    ValidBlock-mono index previous state seen b v = record {
      in_place = v.in_place;
      linked = v.linked;
      hashed = v.hashed;
      sealed = elim v.sealed [
        | inl genesis ↦ inl genesis
        | inr (later, s) ↦ inr (
          later,
          record {
            trusted = wider b.authority s.trusted;
            key = s.key;
            known = more b.authority s.key s.known;
            genuine = s.genuine;
          },
        )
      ];
      admissible = AllAdmissible-mono state seen b.transactions v.admissible;
    }

    pub ValidFrom-mono :
        (index : ℕ) (previous : Str) (state : LedgerState) (seen : List Str) (bs : List Block)
        → ValidFrom names keys index previous state seen bs
        → ValidFrom names' keys' index previous state seen bs
    ValidFrom-mono index previous state seen [] v = tt
    ValidFrom-mono index previous state seen (b ∷ bs) v = (
      ValidBlock-mono (index % u32_mod) previous state seen b v.0,
      ValidFrom-mono (suc index) b.hash (settled_all state b.transactions)
          (noted_all seen b.transactions) bs v.1,
    )
