-- ===== src/Mempool/Queued.antt =====
-- The invariant of the pool of blockrock-core/src/mempool.rs, relative to the chain that it is checked
-- against: each pending transaction passed its checks, after those that were queued before it.
use block_rock.Base.{
  ℕ, ◌+◌, ◌-◌, ◌≤◌, ◌<◌, ◌≡◌, ◌≢◌, refl, ap, true, false, Bool, some, List, [], ◌∷◌, Str, ok, Map,
  get, get_or_zero, contains_key, contains_key-false, insert_absent, keys, values, length, member,
  add_u64_lem, u64_mod, arith,
}
use block_rock.Crypto.{Crypto, VerifyingKey}
use block_rock.Transaction.{Transaction, has_valid_id, payload_within_limit, verify, weight}
use block_rock.Ledger.{LedgerState, Keys, mint_account}
use block_rock.Ledger.Distinct.{ids}
use block_rock.Mempool.{
  Mempool, from_sender, sum_amounts, expected_nonce, available, queue, max_mempool_bytes,
}
use block_rock.Mempool.Turns.{spent}

unfoldable pub total_weight : List Transaction → ℕ
total_weight [] = 0
total_weight (t ∷ ts) = weight t + total_weight ts

module _ ⦃crypto : Crypto⦄ (keys' : Keys) (state : LedgerState) (on_chain : List Str) where
  -- What `queue` checks of a transaction, behind the earlier ones.
  pub record Fits (t : Transaction) (earlier : List Transaction) : Type 0 where
    pub intact : has_valid_id t ≡ true
    pub small : payload_within_limit t ≡ true
    pub other : t.sender ≢ mint_account
    pub unconfirmed : member t.id on_chain ≡ false
    pub unqueued : member t.id (ids earlier) ≡ false
    pub key : VerifyingKey
    pub known : get t.sender keys' ≡ some key
    pub signed : verify t key ≡ true
    pub in_turn :
        t.nonce ≡ get_or_zero t.sender state.nonces + length (from_sender t.sender earlier)
    pub funded :
        spent (from_sender t.sender earlier) + t.amount ≤ get_or_zero t.sender state.balances

  abbrev pub Queued : List Transaction → Type 0
  Queued [] = Unit
  Queued (t ∷ ts) = Fits t ts × Queued ts

  -- The balances and the next nonces do not reach the end of the u64 range.
  pub record InBounds (ts : List Transaction) : Type 0 where
    pub nonces : (s : Str) → get_or_zero s state.nonces + length ts < u64_mod
    pub balances : (s : Str) → get_or_zero s state.balances < u64_mod

  length-from_sender-le : (s : Str) (ts : List Transaction) → length (from_sender s ts) ≤ length ts
  unfolding from_sender
  length-from_sender-le s [] = omega arith
  length-from_sender-le s (t ∷ ts) = ground (arith, length-from_sender-le s ts)

  -- What a sender has in the pool, the sender can pay.
  pub Queued-funded :
      (s : Str) (ts : List Transaction)
      → Queued ts
      → spent (from_sender s ts) ≤ get_or_zero s state.balances
  unfolding from_sender spent
  Queued-funded s [] q = omega arith
  Queued-funded s (t ∷ ts) q = ground (arith, q.0.funded, Queued-funded s ts q.1)

  sum_amounts-spent : (ts : List Transaction) → spent ts < u64_mod → sum_amounts ts ≡ spent ts
  unfolding sum_amounts spent
  sum_amounts-spent [] h = refl
  sum_amounts-spent (t ∷ ts) h =
      ground (arith, sum_amounts-spent ts, add_u64_lem t.amount (spent ts))

  expected_nonce-eq :
      (s : Str) (pool : Mempool)
      → InBounds (values pool.pending)
      → expected_nonce pool state.nonces s
        ≡ get_or_zero s state.nonces + length (from_sender s (values pool.pending))
  unfolding expected_nonce
  expected_nonce-eq s pool b =
      add_u64_lem (get_or_zero s state.nonces) (length (from_sender s (values pool.pending)))
        (omega (arith, b.nonces s, length-from_sender-le s (values pool.pending)))

  available-eq :
      (s : Str) (pool : Mempool)
      → InBounds (values pool.pending)
      → Queued (values pool.pending)
      → available pool state.balances s
        ≡ get_or_zero s state.balances - spent (from_sender s (values pool.pending))
  unfolding available
  available-eq s pool b q =
      ap (λ (n : ℕ). get_or_zero s state.balances - n)
        (sum_amounts-spent (from_sender s (values pool.pending))
          (omega (arith, b.balances s, Queued-funded s (values pool.pending) q)))

  -- The pool itself: keyed by the ids, within its limit, and counting its bytes right.
  pub record PoolOk (pool : Mempool) : Type 0 where
    pub queued : Queued (values pool.pending)
    pub keyed : keys pool.pending ≡ ids (values pool.pending)
    pub counted : pool.bytes ≡ total_weight (values pool.pending)
    pub bounded : pool.bytes ≤ max_mempool_bytes

  contains_key-member : {V : Type 0} (k : Str) (m : Map V) → contains_key k m ≡ member k (keys m)
  unfolding contains_key member
  contains_key-member k [] = refl
  contains_key-member k (e ∷ m) = ground (arith, contains_key-member k m)

  -- A transaction that is queued keeps the invariant: the pool is the old one and the transaction,
  -- which passed every check.
  pub queue-PoolOk :
      (pool : Mempool) (t : Transaction) (exists : Bool) {r : Mempool × Str}
      → InBounds (values pool.pending)
      → weight t + max_mempool_bytes < u64_mod
      → t.sender ≢ mint_account
      → (exists ≡ false → member t.id on_chain ≡ false)
      → PoolOk pool
      → queue pool t keys' state.balances state.nonces exists ≡ ok r
      → PoolOk r.0 × (r.0.pending ≡ (t.id, t) ∷ pool.pending) × (r.1 ≡ t.id)
  unfolding queue total_weight
  queue-PoolOk pool t exists {r} b w other absent p h = ground (
    arith,
    contains_key-member t.id pool.pending,
    contains_key-false t.id pool.pending,
    insert_absent t.id t pool.pending,
    expected_nonce-eq t.sender pool b,
    available-eq t.sender pool b p.queued,
    Queued-funded t.sender (values pool.pending) p.queued,
    add_u64_lem pool.bytes (weight t),
  )
