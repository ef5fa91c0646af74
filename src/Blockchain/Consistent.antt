-- ===== src/Blockchain/Consistent.antt =====
-- The invariant of `Blockchain`: its blocks replay to its balances and nonces under its own keys and
-- authorities, and its index is the one that a rebuild would make. Every operation keeps it.
use block_rock.Base.{
  ◌+◌, ◌%◌, ◌≡◌, refl, sym, ap, ◌∙◌, true, List, [], ◌∷◌, ◌++◌, Str, codes, ok, Result-cases,
  >>=-eq-ok, Bool, inl, inr, keys, last?, length, u32_mod, arith,
}
use block_rock.Crypto.{Crypto}
use block_rock.Transaction.{Transaction}
use block_rock.Block.{Block}
use block_rock.Mempool
use block_rock.Mempool.{Mempool}
use block_rock.Ledger.{LedgerState, verify_block, replay_from}
use block_rock.Ledger.Valid.{
  settled_all, settled_chain, noted_chain, ValidBlock, ValidFrom, valid_of_verify_block,
  valid_of_replay_from, replay_from_of_valid,
}
use block_rock.Ledger.Append.{
  hash_after, SameMembers, member-noted_chain, settled_chain-append, ValidBlock-seen,
  ValidFrom-append,
}
use block_rock.Blockchain.{
  Blockchain, hash_or_zero, last_hash, current_state, index_blocks, index_transactions,
  queue_transaction, requeue, reconcile_mempool, rebuild_transaction_index, commit_block,
  try_append_block, replay, validate_chain, adopt,
}
use block_rock.Blockchain.Index.{index_blocks-append, member-index_blocks}

-- The state that a replay starts from.
abbrev pub initial_state : Blockchain → LedgerState
initial_state chain = record { balances = chain.initial_balances; nonces = [] }

hash_after-last? :
    (x : Block) (bs : List Block) (p : Str) → hash_after p (x ∷ bs) ≡ hash_or_zero (last? (x ∷ bs))
unfolding hash_after
hash_after-last? x [] p = refl
hash_after-last? x (y ∷ bs) p = hash_after-last? y bs x.hash

pub last_hash_lem :
    (chain : Blockchain) (bs : List Block)
    → chain.blocks ≡ bs
    → last_hash chain ≡ hash_after (codes "0") bs
unfolding last_hash hash_after
last_hash_lem chain [] e = rw e
last_hash_lem chain (x ∷ bs) e = rw e (sym (hash_after-last? x bs (codes "0")))

module _ ⦃crypto : Crypto⦄ where
  pub record Consistent (chain : Blockchain) : Type 0 where
    pub valid :
        ValidFrom chain.authorities chain.public_keys 0
          (codes "0")
          (initial_state chain)
          []
          chain.blocks
    pub state : current_state chain ≡ settled_chain (initial_state chain) chain.blocks
    pub indexed : chain.transaction_index ≡ index_blocks 0 chain.blocks []

  pub queue_transaction-frame :
      (chain : Blockchain) (t : Transaction) {r : Blockchain × Str}
      → queue_transaction chain t ≡ ok r
      → r.0 ≡ record chain { mempool = r.0.mempool }
  unfolding queue_transaction
  queue_transaction-frame chain t h = ground arith

  requeue-frame :
      (chain : Blockchain) (ts : List Transaction)
      → (pool : Mempool) × (requeue chain ts ≡ record chain { mempool = pool })
  unfolding requeue
  requeue-frame chain [] = (chain.mempool, refl)
  requeue-frame chain (t ∷ ts) = elim (Result-cases (queue_transaction chain t)) [
    | inl (r, e) ↦
        let (pool, f) = requeue-frame r.0 ts in
        rw e (
          pool,
          f
              ∙ ap (λ (c : Blockchain). record c { mempool = pool })
                  (queue_transaction-frame chain t {r = r} e),
        )
    | inr (x, e) ↦ rw e (requeue-frame chain ts)
  ]

  -- Revalidating the pending transactions touches nothing but the pool.
  pub reconcile_mempool-frame :
      (chain : Blockchain)
      → (pool : Mempool) × (reconcile_mempool chain ≡ record chain { mempool = pool })
  unfolding reconcile_mempool
  reconcile_mempool-frame chain =
      let (pending, pool) = Mempool.drain chain.mempool in
      requeue-frame (record chain { mempool = pool }) pending

  pub Consistent-mempool :
      (chain : Blockchain) (pool : Mempool)
      → Consistent chain
      → Consistent (record chain { mempool = pool })
  unfolding current_state
  Consistent-mempool chain pool c = record { valid = c.valid; state = c.state; indexed = c.indexed }

  pub Consistent-reconcile :
      (chain : Blockchain) → Consistent chain → Consistent (reconcile_mempool chain)
  Consistent-reconcile chain c =
      let (pool, e) = reconcile_mempool-frame chain in rw e (Consistent-mempool chain pool c)

  commit_block-Consistent :
      (chain : Blockchain) (b : Block)
      → Consistent chain
      → ValidBlock chain.authorities chain.public_keys
          (length chain.blocks % u32_mod)
          (last_hash chain)
          (current_state chain)
          (keys chain.transaction_index)
          b
      → Consistent (commit_block chain b (settled_all (current_state chain) b.transactions))
  unfolding commit_block current_state
  commit_block-Consistent chain b c v =
      let state = settled_all (current_state chain) b.transactions in
      let seen = noted_chain [] chain.blocks in
      let z : length chain.blocks ≡ 0 + length chain.blocks = omega arith in
      let same : SameMembers (keys chain.transaction_index) seen = λ i. rw (
        c.indexed,
        member-index_blocks i 0 chain.blocks [],
        member-noted_chain i [] chain.blocks,
      ) in
      let v' : ValidBlock chain.authorities chain.public_keys ((0 + length chain.blocks) % u32_mod)
          (hash_after (codes "0") chain.blocks) (settled_chain (initial_state chain) chain.blocks)
          (keys chain.transaction_index) b =
        rw (z, last_hash_lem chain chain.blocks refl, c.state) at v in
      Consistent-reconcile _ (record {
        valid =
            ValidFrom-append chain.authorities chain.public_keys 0 (codes "0") (initial_state chain)
              [] chain.blocks b c.valid
              (ValidBlock-seen chain.authorities chain.public_keys
                ((0 + length chain.blocks) % u32_mod) (hash_after (codes "0") chain.blocks)
                (settled_chain (initial_state chain) chain.blocks) (keys chain.transaction_index)
                seen b same v');
        state =
            ap (λ s. settled_all s b.transactions) c.state
            ∙ sym (settled_chain-append (initial_state chain) chain.blocks b);
        indexed =
            ap (index_transactions (length chain.blocks) 0 b.transactions) c.indexed
            ∙ rw z (sym (index_blocks-append 0 chain.blocks b []));
      })

  -- A block that is appended keeps the chain consistent.
  pub try_append_block-Consistent :
      (chain : Blockchain) (b : Block) {chain' : Blockchain}
      → Consistent chain
      → try_append_block chain b ≡ ok chain'
      → Consistent chain'
  unfolding try_append_block
  try_append_block-Consistent chain b {chain'} c h =
      let (r, verified, e) =
        >>=-eq-ok
          (verify_block chain.authorities chain.public_keys b (length chain.blocks % u32_mod)
            (last_hash chain) (current_state chain) (keys chain.transaction_index))
          _ {b = chain'} h in
      let (v, out) =
        valid_of_verify_block chain.authorities chain.public_keys (length chain.blocks % u32_mod)
          (last_hash chain) (current_state chain) (keys chain.transaction_index) b {r = r}
          verified in
      let f : commit_block chain b (settled_all (current_state chain) b.transactions) ≡ chain' =
        cc in
      rw f at (commit_block-Consistent chain b c v)

  commit_block-frame :
      (chain : Blockchain) (b : Block) (state : LedgerState)
      → ((commit_block chain b state).public_keys ≡ chain.public_keys)
        × ((commit_block chain b state).authorities ≡ chain.authorities)
        × ((commit_block chain b state).blocks ≡ chain.blocks ++ b ∷ [])
  unfolding commit_block
  commit_block-frame chain b state =
      let (pool, e) = reconcile_mempool-frame (record chain {
        blocks = chain.blocks ++ b ∷ [];
        transaction_index =
            index_transactions (length chain.blocks) 0 b.transactions chain.transaction_index;
        balances = state.balances;
        nonces = state.nonces;
      }) in
      (
        ap (λ (x : Blockchain). x.public_keys) e,
        ap (λ (x : Blockchain). x.authorities) e,
        ap (λ (x : Blockchain). x.blocks) e,
      )

  -- Appending a block puts it at the tip and changes neither keys nor authorities.
  pub try_append_block-frame :
      (chain : Blockchain) (b : Block) {c' : Blockchain}
      → try_append_block chain b ≡ ok c'
      → (c'.public_keys ≡ chain.public_keys)
        × (c'.authorities ≡ chain.authorities)
        × (c'.blocks ≡ chain.blocks ++ b ∷ [])
  unfolding try_append_block
  try_append_block-frame chain b {c'} h =
      let (r, _, e) =
        >>=-eq-ok
          (verify_block chain.authorities chain.public_keys b (length chain.blocks % u32_mod)
            (last_hash chain) (current_state chain) (keys chain.transaction_index))
          _ {b = c'} h in
      let f : commit_block chain b r.0 ≡ c' = ground arith in
      rw f at (commit_block-frame chain b r.0)

  -- Adopting a chain that replays makes the node consistent.
  pub adopt-Consistent :
      (chain : Blockchain) (blocks : List Block) {r : Blockchain × Bool}
      → adopt chain blocks ≡ ok r
      → Consistent r.0
  unfolding adopt replay rebuild_transaction_index current_state
  adopt-Consistent chain blocks {r} h =
      elim (Result-cases (
        replay_from chain.authorities chain.public_keys 0 (codes "0") (initial_state chain) []
          blocks)) [
            | inl (q, e) ↦
                let (v, out) =
                  valid_of_replay_from chain.authorities chain.public_keys 0 (codes "0")
                    (initial_state chain) [] blocks {r = q} e in
                let adopted : Blockchain = record chain {
                  blocks = blocks;
                  balances = q.0.balances;
                  nonces = q.0.nonces;
                  transaction_index = index_blocks 0 blocks [];
                } in
                let f : reconcile_mempool adopted ≡ r.0 = ground arith in
                rw f at (
                  Consistent-reconcile adopted
                    (record { valid = v; state = ap (λ p. p.0) out; indexed = refl }))
            | inr (x, e) ↦ ground arith
          ]

  -- A consistent chain passes its own validation.
  pub validate_chain_of_Consistent :
      (chain : Blockchain) → Consistent chain → validate_chain chain ≡ true
  unfolding validate_chain replay
  validate_chain_of_Consistent chain c = ground (
    arith,
    replay_from_of_valid chain.authorities chain.public_keys 0 (codes "0") (initial_state chain) []
        chain.blocks c.valid,
  )
