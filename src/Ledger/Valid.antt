-- ===== src/Ledger/Valid.antt =====
-- Valid blocks and chains, described without the code, and that `verify_block` and `replay` of
-- blockrock-core/src/blockchain.rs accept exactly these.
use block_rock.Base.{
  ℕ, suc, ◌%◌, ◌<◌, ◌≡◌, refl, ◌⊎◌, inl, inr, true, some, List, [], ◌∷◌, Str, ok, get, member,
  set_insert, u32_mod, arith, Result-cases,
}
use block_rock.Crypto.{Crypto, VerifyingKey}
use block_rock.Transaction.{Transaction}
use block_rock.Block.{Block, is_hash_valid, verify_seal}
use block_rock.Ledger.{
  LedgerState, Keys, apply_transaction, apply_transactions, verify_block, replay_from,
}
use block_rock.Ledger.Settle.{
  settled, Admissible, apply_transaction_of_Admissible, Admissible-of_apply_transaction,
}

unfoldable pub settled_all : LedgerState → List Transaction → LedgerState
settled_all state [] = state
settled_all state (t ∷ ts) = settled_all (settled state t) ts

unfoldable pub noted_all : List Str → List Transaction → List Str
noted_all seen [] = seen
noted_all seen (t ∷ ts) = noted_all (set_insert t.id seen) ts

unfoldable pub settled_chain : LedgerState → List Block → LedgerState
settled_chain state [] = state
settled_chain state (b ∷ bs) = settled_chain (settled_all state b.transactions) bs

unfoldable pub noted_chain : List Str → List Block → List Str
noted_chain seen [] = seen
noted_chain seen (b ∷ bs) = noted_chain (noted_all seen b.transactions) bs

module _ ⦃crypto : Crypto⦄ where
  abbrev pub AllAdmissible : Keys → LedgerState → List Str → List Transaction → Type 0
  AllAdmissible keys state seen [] = Unit
  AllAdmissible keys state seen (t ∷ ts) =
      Admissible keys state seen t × AllAdmissible keys (settled state t) (set_insert t.id seen) ts

  -- The seal of a block by an authority whose key is known.
  pub record Sealed (authorities : List Str) (keys : Keys) (b : Block) : Type 0 where
    pub trusted : member b.authority authorities ≡ true
    pub key : VerifyingKey
    pub known : get b.authority keys ≡ some key
    pub genuine : verify_seal b key ≡ true

  pub record ValidBlock (authorities : List Str) (keys : Keys) (index : ℕ) (previous : Str)
      (state : LedgerState) (seen : List Str) (b : Block) : Type 0 where
    pub in_place : b.index ≡ index
    pub linked : b.previous_hash ≡ previous
    pub hashed : is_hash_valid b ≡ true
    pub sealed : (b.index ≡ 0) ⊎ (0 < b.index) × Sealed authorities keys b
    pub admissible : AllAdmissible keys state seen b.transactions

  abbrev pub ValidFrom : List Str → Keys → ℕ → Str → LedgerState → List Str → List Block → Type 0
  ValidFrom authorities keys index previous state seen [] = Unit
  ValidFrom authorities keys index previous state seen (b ∷ bs) =
      ValidBlock authorities keys (index % u32_mod) previous state seen b
      × ValidFrom authorities keys (suc index) b.hash (settled_all state b.transactions)
          (noted_all seen b.transactions) bs

  module _ (keys : Keys) where
    pub apply_transactions_of_Admissible :
        (state : LedgerState) (seen : List Str) (ts : List Transaction)
        → AllAdmissible keys state seen ts
        → apply_transactions keys state seen ts ≡ ok (settled_all state ts, noted_all seen ts)
    unfolding apply_transactions settled_all noted_all
    apply_transactions_of_Admissible state seen [] h = refl
    apply_transactions_of_Admissible state seen (t ∷ ts) h =
        rw (apply_transaction_of_Admissible keys state seen t h.0)
          (apply_transactions_of_Admissible (settled state t) (set_insert t.id seen) ts h.1)

    pub Admissible-of_apply_transactions :
        (state : LedgerState) (seen : List Str) (ts : List Transaction) {r : LedgerState × List Str}
        → apply_transactions keys state seen ts ≡ ok r
        → AllAdmissible keys state seen ts × (r ≡ (settled_all state ts, noted_all seen ts))
    unfolding apply_transactions settled_all noted_all
    Admissible-of_apply_transactions state seen [] h = (tt, ground arith)
    Admissible-of_apply_transactions state seen (t ∷ ts) h =
        elim (Result-cases (apply_transaction keys state seen t)) [
          | inl (q, e) ↦
              let (a, p) = Admissible-of_apply_transaction keys state seen t e in
              let (rest, out) =
                Admissible-of_apply_transactions (settled state t) (set_insert t.id seen) ts
                  (rw (e, p) at h) in
              ((a, rest), out)
          | inr (x, e) ↦ ground arith
        ]

  module _ (authorities : List Str) (keys : Keys) where
    pub verify_block_of_valid :
        (index : ℕ) (previous : Str) (state : LedgerState) (seen : List Str) (b : Block)
        → ValidBlock authorities keys index previous state seen b
        → verify_block authorities keys b index previous state seen
          ≡ ok (settled_all state b.transactions, noted_all seen b.transactions)
    unfolding verify_block verify_seal
    verify_block_of_valid index previous state seen b v =
        ground (arith, apply_transactions_of_Admissible keys state seen b.transactions v.admissible)

    pub valid_of_verify_block :
        (index : ℕ) (previous : Str) (state : LedgerState) (seen : List Str) (b : Block)
        {r : LedgerState × List Str}
        → verify_block authorities keys b index previous state seen ≡ ok r
        → ValidBlock authorities keys index previous state seen b
          × (r ≡ (settled_all state b.transactions, noted_all seen b.transactions))
    unfolding verify_block verify_seal
    valid_of_verify_block index previous state seen b {r} h =
        ground (arith, Admissible-of_apply_transactions keys state seen b.transactions {r = r})

    -- A chain that is valid from a position, state and set of seen ids on replays from there, and the
    -- result is the state after all of its transfers and the ids seen by then.
    pub replay_from_of_valid :
        (index : ℕ) (previous : Str) (state : LedgerState) (seen : List Str) (bs : List Block)
        → ValidFrom authorities keys index previous state seen bs
        → replay_from authorities keys index previous state seen bs
          ≡ ok (settled_chain state bs, noted_chain seen bs)
    unfolding replay_from settled_chain noted_chain
    replay_from_of_valid index previous state seen [] h = refl
    replay_from_of_valid index previous state seen (b ∷ bs) h =
        rw (verify_block_of_valid (index % u32_mod) previous state seen b h.0)
          (replay_from_of_valid (suc index) b.hash _ _ bs h.1)

    -- A chain that replays is valid from there on, and the replay returned the state after all of its
    -- transfers and the ids seen by then.
    pub valid_of_replay_from :
        (index : ℕ) (previous : Str) (state : LedgerState) (seen : List Str) (bs : List Block)
        {r : LedgerState × List Str}
        → replay_from authorities keys index previous state seen bs ≡ ok r
        → ValidFrom authorities keys index previous state seen bs
          × (r ≡ (settled_chain state bs, noted_chain seen bs))
    unfolding replay_from settled_chain noted_chain
    valid_of_replay_from index previous state seen [] h = (tt, ground arith)
    valid_of_replay_from index previous state seen (b ∷ bs) h =
        elim (Result-cases
          (verify_block authorities keys b (index % u32_mod) previous state seen)) [
            | inl (q, e) ↦
                let (v, p) = valid_of_verify_block (index % u32_mod) previous state seen b e in
                let (rest, out) =
                  valid_of_replay_from (suc index) b.hash (settled_all state b.transactions)
                    (noted_all seen b.transactions) bs (rw (e, p) at h) in
                ((v, rest), out)
            | inr (x, e) ↦ ground arith
          ]
