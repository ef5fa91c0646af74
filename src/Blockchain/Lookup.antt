-- ===== src/Blockchain/Lookup.antt =====
-- `get_transaction` of blockrock-core/src/blockchain.rs finds a transaction exactly if it is on the
-- chain, and finds the right one.
use block_rock.Base.{
  ℕ, suc, ◌+◌, ◌≡◌, refl, true, false, Bool-cases, ◌⊎◌, inl, inr, some, none, List, [], ◌∷◌, Str,
  codes, Bytes-discrete, get, member, get_elem?, arith,
}
use block_rock.Crypto.{Crypto}
use block_rock.Transaction.{Transaction}
use block_rock.Block.{Block}
use block_rock.Ledger.Distinct.{ids, chain_ids, Distinct, member-append, ValidFrom-Distinct}
use block_rock.Blockchain.{Blockchain, get_transaction}
use block_rock.Blockchain.Index.{get-index_blocks, get-index_blocks_other}
use block_rock.Blockchain.Consistent.{Consistent, initial_state}

-- `t` stands at position `j` of the block at position `i`.
pub record Stands (bs : List Block) (i j : ℕ) (b : Block) (t : Transaction) : Type 0 where
  pub block : get_elem? bs i ≡ some b
  pub place : get_elem? b.transactions j ≡ some t

ids-place :
    (id : Str) (ts : List Transaction)
    → member id (ids ts) ≡ true
    → (j : ℕ) × (t : Transaction) × (get_elem? ts j ≡ some t) × (t.id ≡ id)
unfolding member
ids-place id [] h = cc
ids-place id (x ∷ ts) h = elim (Bytes-discrete x.id id) [
  | yes e ↦ (0, x, refl, e)
  | no ne ↦ let (j, t, p, e) = ids-place id ts (ground arith) in (suc j, t, p, e)
]

chain_ids-place :
    (id : Str) (bs : List Block)
    → member id (chain_ids bs) ≡ true
    → (i : ℕ) × (j : ℕ) × (b : Block) × (t : Transaction) × Stands bs i j b t × (t.id ≡ id)
unfolding chain_ids member
chain_ids-place id [] h = cc
chain_ids-place id (x ∷ bs) h = elim (Bool-cases (member id (ids x.transactions))) [
  | inl here ↦
      let (j, t, p, e) = ids-place id x.transactions here in
      (0, j, x, t, record { block = refl; place = p }, e)
  | inr later ↦
      let (i, j, b, t, p, e) =
        chain_ids-place id bs
          (ground (arith, member-append id (ids x.transactions) (chain_ids bs))) in
      (suc i, j, b, t, record { block = p.block; place = p.place }, e)
]

module _ ⦃crypto : Crypto⦄ (chain : Blockchain) (c : Consistent chain) where
  distinct : Distinct (chain_ids chain.blocks)
  distinct =
      ValidFrom-Distinct chain.authorities chain.public_keys 0 (codes "0") (initial_state chain) []
        chain.blocks c.valid

  -- A transaction that stands on a consistent chain is found by its id.
  pub get_transaction_found :
      (i j : ℕ) (b : Block) (t : Transaction)
      → Stands chain.blocks i j b t
      → get_transaction chain t.id ≡ some t
  unfolding get_transaction
  get_transaction_found i j b t s =
      let e : 0 + i ≡ i = omega arith in
      rw (
        c.indexed,
        get-index_blocks 0 chain.blocks [] i j {b = b} {t = t} distinct s.block s.place,
        e,
        s.block,
        s.place,
      )

  get_transaction_absent :
      (id : Str) → member id (chain_ids chain.blocks) ≡ false → get_transaction chain id ≡ none
  unfolding get_transaction get
  get_transaction_absent id h = rw (c.indexed, get-index_blocks_other id 0 chain.blocks [] h)

  -- On a consistent chain `get_transaction` returns a transaction with the id that was asked for,
  -- which stands on the chain, or there is none with that id on the chain.
  pub get_transaction_exact :
      (id : Str)
      → ((i : ℕ) × (j : ℕ) × (b : Block) × (t : Transaction) × Stands chain.blocks i j b t
          × (t.id ≡ id)
          × (get_transaction chain id ≡ some t))
        ⊎ ((member id (chain_ids chain.blocks) ≡ false) × (get_transaction chain id ≡ none))
  get_transaction_exact id = elim (Bool-cases (member id (chain_ids chain.blocks))) [
    | inl there ↦
        let (i, j, b, t, s, e) = chain_ids-place id chain.blocks there in
        inl (i, j, b, t, s, e, rw e at (get_transaction_found i j b t s))
    | inr absent ↦ inr (absent, get_transaction_absent id absent)
  ]
