-- ===== src/Blockchain/Pool.antt =====
-- The pool of a chain is in order: `queue_transaction` keeps it so, and `reconcile_mempool` restores it
-- after the chain has changed.
use block_rock.Base.{
  ℕ, ◌+◌, ◌<◌, ◌≡◌, refl, sym, subst, false, inl, inr, List, [], ◌∷◌, Str, ok, err, Result-cases,
  All, get_or_zero, keys, values, length-values, member, length, is_some, u64_mod, arith,
}
use block_rock.Crypto.{Crypto}
use block_rock.Transaction.{Transaction, weight}
use block_rock.ChainError.{ChainError}
use block_rock.Mempool
use block_rock.Mempool.{Mempool, drain, sort, max_mempool_bytes, queue}
use block_rock.Mempool.Order.{sort-All, length-sort}
use block_rock.Mempool.Queued.{PoolOk, total_weight, InBounds, queue-PoolOk}
use block_rock.Blockchain.{
  Blockchain, current_state, get_transaction, queue_transaction, requeue, reconcile_mempool,
}
use block_rock.Blockchain.Index.{member-index_blocks}
use block_rock.Blockchain.Consistent.{Consistent, Consistent-mempool, queue_transaction-frame}
use block_rock.Blockchain.Lookup.{get_transaction_exact}

-- The strings of the transaction fit in memory beside a full pool.
abbrev pub FitsMemory : Transaction → Type 0
FitsMemory t = weight t + max_mempool_bytes < u64_mod

-- With `n` more transactions in the pool no nonce and no balance leaves the range of a u64.
pub record HasRoom (chain : Blockchain) (n : ℕ) : Type 0 where
  pub nonces : (s : Str) → get_or_zero s chain.nonces + (length chain.mempool.pending + n) < u64_mod
  pub balances : (s : Str) → get_or_zero s chain.balances < u64_mod

module _ ⦃crypto : Crypto⦄ where
  -- The pool is in order for the chain that holds it.
  abbrev pub PoolInOrder : Blockchain → Type 0
  PoolInOrder chain =
      PoolOk chain.public_keys (current_state chain) (keys chain.transaction_index) chain.mempool

  unknown-unindexed :
      (chain : Blockchain) (id : Str)
      → Consistent chain
      → is_some (get_transaction chain id) ≡ false
      → member id (keys chain.transaction_index) ≡ false
  unfolding member
  unknown-unindexed chain id c h =
      ground (
        arith,
        get_transaction_exact chain c id,
        c.indexed,
        member-index_blocks id 0 chain.blocks [],
      )

  -- A transaction that a consistent chain queues is in front of what was pending, and a pool that was
  -- in order stays so. Nonces and balances must have room in a u64, and the transaction in memory.
  pub queue_transaction-PoolInOrder :
      (chain : Blockchain) (t : Transaction) {r : Blockchain × Str}
      → Consistent chain
      → HasRoom chain 0
      → FitsMemory t
      → PoolInOrder chain
      → queue_transaction chain t ≡ ok r
      → PoolInOrder r.0 × (r.0.mempool.pending ≡ (t.id, t) ∷ chain.mempool.pending)
  unfolding queue_transaction current_state
  queue_transaction-PoolInOrder chain t {r} c room fits p h =
      let exists = is_some (get_transaction chain t.id) in
      let bounds : InBounds chain.public_keys (current_state chain) (keys chain.transaction_index)
          (values chain.mempool.pending) =
        record {
          nonces = λ s. omega (arith, room.nonces s, length-values chain.mempool.pending);
          balances = room.balances;
        } in
      elim (Result-cases
        (queue chain.mempool t chain.public_keys chain.balances chain.nonces exists)) [
          | inl (q, e) ↦
              let (ok_pool, pending, _) =
                queue-PoolOk chain.public_keys (current_state chain) (keys chain.transaction_index)
                  chain.mempool t exists {r = q} bounds fits (ground arith)
                  (unknown-unindexed chain t.id c) p e in
              let out : ◌≡◌ {A = Blockchain × Str} (record chain { mempool = q.0 }, q.1) r =
                ground arith in
              subst
                (λ (x : Blockchain × Str).
                  PoolInOrder x.0 × (x.0.mempool.pending ≡ (t.id, t) ∷ chain.mempool.pending))
                out (ok_pool, pending)
          | inr (x, e) ↦ ground arith
        ]

  requeue_ok :
      (chain : Blockchain) (t : Transaction) (ts : List Transaction) {r : Blockchain × Str}
      → queue_transaction chain t ≡ ok r
      → requeue chain (t ∷ ts) ≡ requeue r.0 ts
  unfolding requeue
  requeue_ok chain t ts e = rw e

  requeue_err :
      (chain : Blockchain) (t : Transaction) (ts : List Transaction) {x : ChainError}
      → queue_transaction chain t ≡ err x
      → requeue chain (t ∷ ts) ≡ requeue chain ts
  unfolding requeue
  requeue_err chain t ts e = rw e

  requeue-PoolInOrder :
      (chain : Blockchain) (ts : List Transaction)
      → Consistent chain
      → HasRoom chain (length ts)
      → All FitsMemory ts
      → PoolInOrder chain
      → PoolInOrder (requeue chain ts)
  unfolding requeue
  requeue-PoolInOrder chain [] c room fits p = p
  requeue-PoolInOrder chain (t ∷ ts) c room fits p =
      elim (Result-cases (queue_transaction chain t)) [
        | inl (r, e) ↦
            let (p', pending) =
              queue_transaction-PoolInOrder chain t {r = r} c
                (record { nonces = λ s. omega (arith, room.nonces s); balances = room.balances })
                fits.0 p e in
            let frame = queue_transaction-frame chain t {r = r} e in
            let c' : Consistent r.0 = rw frame (Consistent-mempool chain r.0.mempool c) in
            let room' : HasRoom r.0 (length ts) = record {
              nonces = λ s. ground (arith, room.nonces s);
              balances = λ s. ground (arith, room.balances s);
            } in
            subst PoolInOrder (sym (requeue_ok chain t ts {r = r} e))
              (requeue-PoolInOrder r.0 ts c' room' fits.1 p')
        | inr (x, e) ↦ subst PoolInOrder (sym (requeue_err chain t ts e)) (
            requeue-PoolInOrder chain ts c
              (record { nonces = λ s. omega (arith, room.nonces s); balances = room.balances })
              fits.1 p)
      ]

  -- Whatever was pending on a consistent chain, revalidation leaves a pool that is in order for the
  -- chain as it is now. Nonces and balances must have room in a u64, and the transactions in memory.
  pub reconcile_mempool-PoolInOrder :
      (chain : Blockchain)
      → Consistent chain
      → HasRoom chain 0
      → All FitsMemory (values chain.mempool.pending)
      → PoolInOrder (reconcile_mempool chain)
  unfolding reconcile_mempool drain total_weight
  reconcile_mempool-PoolInOrder chain c room fits =
      let pending = values chain.mempool.pending in
      requeue-PoolInOrder (record chain { mempool = Mempool.empty }) (sort pending)
        (Consistent-mempool chain Mempool.empty c)
        (record {
          nonces = λ s.
              omega
                (arith, room.nonces s, length-sort pending, length-values chain.mempool.pending);
          balances = room.balances;
        })
        (sort-All FitsMemory pending fits)
        (record { queued = tt; keyed = refl; counted = refl; bounded = omega arith })
