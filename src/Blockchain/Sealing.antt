-- ===== src/Blockchain/Sealing.antt =====
-- Sealing: a registered authority can always seal what the pool holds, and a failed attempt loses
-- nothing.
use block_rock.Base.{
  ℕ, ◌+◌, ◌%◌, ◌<◌, ◌≡◌, ◌≢◌, refl, ap, true, inl, inr, some, List, [], ◌∷◌, ◌++◌, Str, ==_refl,
  Bool-cases, ltb, ok, err, Map, keys, get, get_or_zero, total, values, length-values, length,
  member, u64_mod, u32_mod, arith,
}
use block_rock.Crypto.{Crypto, SigningKey, SignsVerifiably}
use block_rock.Transaction.{Transaction}
use block_rock.Block.{
  Block, sealed, with_timestamp, calculate_hash, hashed_bytes, is_hash_valid, signing_payload,
  verify_seal,
}
use block_rock.ChainError.{ChainError}
use block_rock.Mempool
use block_rock.Mempool.{Mempool, sort, drain}
use block_rock.Mempool.Order.{length-sort}
use block_rock.Mempool.Queued.{PoolOk}
use block_rock.Mempool.Ready.{Ready-AllAdmissible, Queued-Ready}
use block_rock.Ledger.{LedgerState}
use block_rock.Ledger.Valid.{settled_all, AllAdmissible, ValidBlock, verify_block_of_valid}
use block_rock.Blockchain.{
  Blockchain, last_hash, current_state, commit_block, try_append_block, add_block, seal_batch,
  seal_mempool, index_transactions, requeue, reconcile_mempool,
}

-- `authority` may seal, and `key` is its registered key.
pub record CanSeal ⦃crypto : Crypto⦄ (chain : Blockchain) (authority : Str) (key : SigningKey)
    : Type 0 where
  pub listed : member authority chain.authorities ≡ true
  pub registered : get authority chain.public_keys ≡ some (crypto.verifying_key key)

module _ ⦃crypto : Crypto⦄ where
  -- The block that `add_block` makes.
  abbrev pub next_block : ℕ → Blockchain → List Transaction → Str → SigningKey → Block
  next_block now chain ts authority key =
      sealed now (length chain.blocks % u32_mod) ts (last_hash chain) authority key

  sealed-verifies :
      (now index : ℕ) (ts : List Transaction) (previous authority : Str) (key : SigningKey)
      → SignsVerifiably crypto
      → verify_seal (sealed now index ts previous authority key) (crypto.verifying_key key) ≡ true
  unfolding sealed verify_seal with_timestamp signing_payload
  sealed-verifies now index ts previous authority key law = law key _

  sealed-hashed :
      (now index : ℕ) (ts : List Transaction) (previous authority : Str) (key : SigningKey)
      → is_hash_valid (sealed now index ts previous authority key) ≡ true
  unfolding sealed with_timestamp is_hash_valid calculate_hash hashed_bytes
  sealed-hashed now index ts previous authority key = ==_refl _

  pub next_block-Valid :
      (now : ℕ) (chain : Blockchain) (ts : List Transaction) (authority : Str) (key : SigningKey)
      (state : LedgerState) (seen : List Str)
      → SignsVerifiably crypto
      → CanSeal chain authority key
      → AllAdmissible chain.public_keys state seen ts
      → ValidBlock chain.authorities chain.public_keys
          (length chain.blocks % u32_mod)
          (last_hash chain)
          state
          seen
          (next_block now chain ts authority key)
  unfolding sealed with_timestamp
  next_block-Valid now chain ts authority key state seen law can a =
      let index = length chain.blocks % u32_mod in
      record {
        in_place = refl;
        linked = refl;
        hashed = sealed-hashed now index ts (last_hash chain) authority key;
        sealed = elim (Bool-cases (ltb 0 index)) [
          | inl later ↦ inr (
            ground arith,
            record {
              trusted = can.listed;
              key = crypto.verifying_key key;
              known = can.registered;
              genuine = sealed-verifies now index ts (last_hash chain) authority key law;
            },
          )
          | inr genesis ↦ inl (ground arith)
        ];
        admissible = a;
      }

  -- If signatures verify, a registered authority with its own key adds any transactions that are
  -- admissible one after another: the new block is at the tip, and it is committed with the settled state.
  pub add_block_of_Admissible :
      (now : ℕ) (chain : Blockchain) (ts : List Transaction) (authority : Str) (key : SigningKey)
      → SignsVerifiably crypto
      → CanSeal chain authority key
      → AllAdmissible chain.public_keys (current_state chain) (keys chain.transaction_index) ts
      → add_block now chain ts authority key
        ≡ ok (
          commit_block chain
              (next_block now chain ts authority key)
              (settled_all (current_state chain) ts),
          length chain.blocks % u32_mod,
        )
  unfolding add_block try_append_block sealed with_timestamp
  add_block_of_Admissible now chain ts authority key law can a =
      let v =
        next_block-Valid now chain ts authority key (current_state chain)
          (keys chain.transaction_index) law can a in
      rw (
        can.listed,
        can.registered,
        ==_refl (crypto.verifying_key key),
        verify_block_of_valid chain.authorities chain.public_keys (length chain.blocks % u32_mod)
            (last_hash chain) (current_state chain) (keys chain.transaction_index)
            (next_block now chain ts authority key) v,
      )

  -- What sealing leaves behind.
  pub record Sealed (now : ℕ) (chain : Blockchain) (authority : Str) (key : SigningKey)
      (chain' : Blockchain) : Type 0 where
    pub blocks :
        chain'.blocks
        ≡ chain.blocks
          ++ next_block now chain (sort (values chain.mempool.pending)) authority key ∷ []
    pub state :
        current_state chain'
        ≡ settled_all (current_state chain) (sort (values chain.mempool.pending))
    pub emptied : chain'.mempool ≡ Mempool.empty

  commit_block-empty :
      (chain : Blockchain) (b : Block) (state : LedgerState)
      → commit_block (record chain { mempool = Mempool.empty }) b state ≡ record chain {
        blocks = chain.blocks ++ b ∷ [];
        transaction_index =
            index_transactions (length chain.blocks) 0 b.transactions chain.transaction_index;
        balances = state.balances;
        nonces = state.nonces;
        mempool = Mempool.empty;
      }
  unfolding commit_block reconcile_mempool requeue drain
  commit_block-empty chain b state = refl

  seal_batch_ok :
      (now : ℕ) (c : Blockchain) (pool : Mempool) (ts : List Transaction) (authority : Str)
      (key : SigningKey) (c' : Blockchain) (index : ℕ)
      → ts ≢ []
      → add_block now c ts authority key ≡ ok (c', index)
      → seal_batch now c pool ts authority key ≡ (c', ok (some index))
  unfolding seal_batch
  seal_batch_ok now c pool [] authority key c' index some_ts e = absurd (some_ts refl)
  seal_batch_ok now c pool (t ∷ ts) authority key c' index some_ts e = rw (e, seal_batch)

  seal_batch_fails :
      (now : ℕ) (c : Blockchain) (pool : Mempool) (ts : List Transaction) (authority : Str)
      (key : SigningKey) (e : ChainError)
      → (seal_batch now c pool ts authority key).1 ≡ err e
      → (seal_batch now c pool ts authority key).0 ≡ record c { mempool = pool }
  unfolding seal_batch
  seal_batch_fails now c pool [] authority key e h = cc
  seal_batch_fails now c pool (t ∷ ts) authority key e h = ground arith

  sort_of_nonempty : (m : Map Transaction) → m ≢ [] → sort (values m) ≢ []
  sort_of_nonempty [] h = absurd (h refl)
  sort_of_nonempty (x ∷ m) h = λ e.
      let n : length (sort (values (x ∷ m))) ≡ 0 = ap length e in
      absurd (omega (arith, length-sort (values (x ∷ m))))

  -- Sealing a pool that holds anything succeeds for a registered authority with its own key: all
  -- that the pool held is in the new block at the tip, sorted, and the pool is empty. The pool must
  -- be in order, signatures verify, the sum of balances be in the range of a u64, and every nonce
  -- have room there for the pool.
  pub seal_mempool_succeeds :
      (now : ℕ) (chain : Blockchain) (authority : Str) (key : SigningKey)
      → SignsVerifiably crypto
      → CanSeal chain authority key
      → PoolOk chain.public_keys (current_state chain) (keys chain.transaction_index) chain.mempool
      → ((s : Str) → get_or_zero s chain.nonces + length chain.mempool.pending < u64_mod)
      → total chain.balances < u64_mod
      → chain.mempool.pending ≢ []
      → (chain' : Blockchain) × (seal_mempool now chain authority key
          ≡ (chain', ok (some (length chain.blocks % u32_mod))))
        × Sealed now chain authority key chain'
  unfolding seal_mempool drain current_state last_hash
  seal_mempool_succeeds now chain authority key law can pool room supply held =
      let drained : Blockchain = record chain { mempool = Mempool.empty } in
      let pending = values chain.mempool.pending in
      let ready =
        Queued-Ready chain.public_keys (current_state chain) (keys chain.transaction_index) pending
          pool.queued (λ s. rw (length-values chain.mempool.pending) (room s)) supply in
      let admissible =
        Ready-AllAdmissible chain.public_keys (current_state chain) (keys chain.transaction_index)
          (sort pending) ready in
      let added =
        add_block_of_Admissible now drained (sort pending) authority key law
          (record { listed = can.listed; registered = can.registered }) admissible in
      (
        commit_block drained (next_block now drained (sort pending) authority key)
            (settled_all (current_state chain) (sort pending)),
        seal_batch_ok now drained chain.mempool (sort pending) authority key _ _
            (sort_of_nonempty chain.mempool.pending held) added,
        rw commit_block-empty (record { blocks = refl; state = refl; emptied = refl }),
      )

  -- When sealing fails the chain is what it was, with all that was pending.
  pub seal_mempool_fails :
      (now : ℕ) (chain : Blockchain) (authority : Str) (key : SigningKey) (e : ChainError)
      → (seal_mempool now chain authority key).1 ≡ err e
      → (seal_mempool now chain authority key).0 ≡ chain
  unfolding seal_mempool
  seal_mempool_fails now chain authority key e h =
      let (ts, pool) = drain chain.mempool in
      seal_batch_fails now (record chain { mempool = pool }) chain.mempool ts authority key e h
