-- ===== src/Blockchain/Room.antt =====
-- When the pool of blockrock-core/src/mempool.rs has no room for a transaction that could be queued
-- otherwise, and that this is when queueing says so.
use block_rock.Base.{
  ℕ, ◌<◌, ◌≤◌, ◌≡◌, true, false, some, Option-cases, inl, inr, err, get, contains_key, is_some,
  add_u64, ◌==◌, arith,
}
use block_rock.ChainError.{mempool_full}
use block_rock.Crypto.{Crypto, VerifyingKey}
use block_rock.Ledger.{mint_account}
use block_rock.Mempool
use block_rock.Mempool.{Mempool, expected_nonce, available, max_mempool_bytes}
use block_rock.Transaction.{Transaction, has_valid_id, payload_within_limit, verify, weight}
use block_rock.Blockchain.{Blockchain, queue_transaction, get_transaction}

-- The pool with the transaction would hold more bytes than it may; their sum is a u64.
abbrev pub NoRoom : Blockchain → Transaction → Type 0
NoRoom c t = max_mempool_bytes < add_u64 c.mempool.bytes (weight t)

module _ ⦃crypto : Crypto⦄ where
  -- All that queueing asks of a transaction but room in the pool.
  pub record Payable (c : Blockchain) (t : Transaction) : Type 0 where
    pub other : (t.sender == mint_account) ≡ false
    pub intact : has_valid_id t ≡ true
    pub small : payload_within_limit t ≡ true
    pub unconfirmed : is_some (get_transaction c t.id) ≡ false
    pub unqueued : contains_key t.id c.mempool.pending ≡ false
    pub key : VerifyingKey
    pub known : get t.sender c.public_keys ≡ some key
    pub signed : verify t key ≡ true
    pub in_turn : t.nonce ≡ expected_nonce c.mempool c.nonces t.sender
    pub funded : t.amount ≤ available c.mempool c.balances t.sender

  pub queue_transaction-NoRoom :
      (c : Blockchain) (t : Transaction)
      → Payable c t
      → NoRoom c t
      → queue_transaction c t ≡ err (mempool_full c.mempool.bytes max_mempool_bytes)
  unfolding queue_transaction Mempool.queue
  queue_transaction-NoRoom c t p full = ground (
    arith, p.other, p.intact, p.small, p.unconfirmed, p.unqueued, p.known, p.signed, p.in_turn,
    p.funded, full,
  )

  pub queue_transaction-Payable :
      (c : Blockchain) (t : Transaction) (queued max : ℕ)
      → queue_transaction c t ≡ err (mempool_full queued max)
      → Payable c t × NoRoom c t × (queued ≡ c.mempool.bytes) × (max ≡ max_mempool_bytes)
  unfolding queue_transaction Mempool.queue
  queue_transaction-Payable c t queued max h = elim (Option-cases (get t.sender c.public_keys)) [
    | inl e ↦ ground (arith, e, h)
    | inr (key, e) ↦ (
      record {
        other = ground (arith, e, h);
        intact = ground (arith, e, h);
        small = ground (arith, e, h);
        unconfirmed = ground (arith, e, h);
        unqueued = ground (arith, e, h);
        key = key;
        known = e;
        signed = ground (arith, e, h);
        in_turn = ground (arith, e, h);
        funded = ground (arith, e, h);
      },
      ground (arith, e, h),
      ground (arith, e, h),
      ground (arith, e, h),
    )
  ]
