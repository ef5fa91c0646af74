-- ===== src/Blockchain/Reach.antt =====
-- Every operation of `Blockchain` as a step, and that all chains which the steps reach from a fresh
-- one are consistent.
use block_rock.Base.{
  ℕ, ◌%◌, u32_mod, leb, Bool-cases, ◌≡◌, refl, true, Bool, Option, some, none, ◌⊎◌, inl, inr, List,
  [], ◌∷◌, Str, codes, ==_refl, ok, Result-cases, get, get-insert, insert, member-set_insert,
  set_insert, first?, length, arith,
}
use block_rock.Crypto.{Crypto, VerifyingKey, SigningKey}
use block_rock.Transaction.{Transaction}
use block_rock.Block.{Block, sealed, with_timestamp, is_hash_valid, calculate_hash, hashed_bytes}
use block_rock.Mempool
use block_rock.Mempool.{Mempool}
use block_rock.Ledger.{Keys}
use block_rock.Ledger.Valid.{settled_chain, settled_all}
use block_rock.Ledger.Trust.{Extends, ValidFrom-mono}
use block_rock.Blockchain.{
  Blockchain, last_hash, seal_batch, check_genesis, genesis_hash, current_state, index_blocks, new,
  queue_transaction, add_public_key, register_authority, try_append_block, add_block, seal_mempool,
  validate_chain, try_adopt_chain,
}
use block_rock.Blockchain.Consistent.{
  Consistent, initial_state, Consistent-mempool, queue_transaction-frame,
  try_append_block-Consistent, adopt-Consistent, validate_chain_of_Consistent,
}

-- The name has no key yet, or has this one.
abbrev pub Unclaimed : Blockchain → Str → VerifyingKey → Type 0
Unclaimed chain name key =
    (get name chain.public_keys ≡ none) ⊎ (get name chain.public_keys ≡ some key)

pub Extends-insert :
    (keys : Keys) (name : Str) (key : VerifyingKey)
    → (get name keys ≡ none) ⊎ (get name keys ≡ some key)
    → Extends keys (insert name key keys)
Extends-insert keys name key unclaimed other k e = ground (arith, get-insert other name key keys)

module _ ⦃crypto : Crypto⦄ where
  -- A successful call of each operation that changes the chain.
  pub data Step (c : Blockchain) (c' : Blockchain) : Type 0 where
    queued : (t : Transaction) (id : Str) → queue_transaction c t ≡ ok (c', id) → Step c c'
    appended : (b : Block) → try_append_block c b ≡ ok c' → Step c c'
    produced :
        (now : ℕ) (ts : List Transaction) (name : Str) (key : SigningKey) (index : ℕ)
        → add_block now c ts name key ≡ ok (c', index)
        → Step c c'
    sealed_pool :
        (now : ℕ) (name : Str) (key : SigningKey) → c' ≡ (seal_mempool now c name key).0 → Step c c'
    adopted :
        (blocks : List Block) (replaced : Bool)
        → try_adopt_chain c blocks ≡ ok (c', replaced)
        → Step c c'
    learned :
        (name : Str) (key : VerifyingKey)
        → Unclaimed c name key
        → c' ≡ add_public_key c name key
        → Step c c'
    enrolled :
        (name : Str) (key : VerifyingKey)
        → Unclaimed c name key
        → c' ≡ register_authority c name key
        → Step c c'

  pub data Reach (c : Blockchain) : Blockchain → Type 0 where
    here : Reach c c
    next : {d e : Blockchain} → Reach c d → Step d e → Reach c e

  pub new-Consistent : (authority : Str) (keys : Keys) → Consistent (new authority keys)
  unfolding new with_timestamp is_hash_valid calculate_hash hashed_bytes current_state index_blocks
      settled_chain settled_all
  new-Consistent authority keys = record {
    valid = (
      record {
        in_place = refl;
        linked = refl;
        hashed = ==_refl _;
        sealed = inl refl;
        admissible = tt;
      },
      tt,
    );
    state = refl;
    indexed = refl;
  }

  add_block-Consistent :
      (now : ℕ) (c : Blockchain) (ts : List Transaction) (name : Str) (key : SigningKey)
      {r : Blockchain × ℕ}
      → Consistent c
      → add_block now c ts name key ≡ ok r
      → Consistent r.0
  unfolding add_block
  add_block-Consistent now c ts name key {r} v h =
      let b = sealed now (length c.blocks % u32_mod) ts (last_hash c) name key in
      let appended_ok : try_append_block c b ≡ ok r.0 = ground arith in
      try_append_block-Consistent c b v appended_ok

  seal_batch-Consistent :
      (now : ℕ) (c : Blockchain) (pool : Mempool) (ts : List Transaction) (name : Str)
      (key : SigningKey)
      → Consistent c
      → Consistent (seal_batch now c pool ts name key).0
  unfolding seal_batch
  seal_batch-Consistent now c pool [] name key v = v
  seal_batch-Consistent now c pool (t ∷ ts) name key v =
      elim (Result-cases (add_block now c (t ∷ ts) name key)) [
        | inl (r, e) ↦ rw (e, seal_batch) (add_block-Consistent now c (t ∷ ts) name key {r = r} v e)
        | inr (x, e) ↦ rw (e, seal_batch) (Consistent-mempool c pool v)
      ]

  pub seal_mempool-Consistent :
      (now : ℕ) (c : Blockchain) (name : Str) (key : SigningKey)
      → Consistent c
      → Consistent (seal_mempool now c name key).0
  unfolding seal_mempool
  seal_mempool-Consistent now c name key v =
      let (ts, pool) = Mempool.drain c.mempool in
      seal_batch-Consistent now (record c { mempool = pool }) c.mempool ts name key
        (Consistent-mempool c pool v)

  check_genesis-Consistent :
      (c : Blockchain) (ours : Option Str) (theirs : Option Block) (blocks : List Block)
      {r : Blockchain × Bool}
      → Consistent c
      → check_genesis c ours theirs blocks ≡ ok r
      → Consistent r.0
  unfolding check_genesis
  check_genesis-Consistent c ours none blocks {r} v h = let e : c ≡ r.0 = ground arith in rw e at v
  check_genesis-Consistent c none (some b) blocks {r} v h = adopt-Consistent c blocks {r = r} h
  check_genesis-Consistent c (some ours) (some b) blocks {r} v h =
      adopt-Consistent c blocks {r = r} (ground arith)

  pub try_adopt_chain-Consistent :
      (c : Blockchain) (blocks : List Block) {r : Blockchain × Bool}
      → Consistent c
      → try_adopt_chain c blocks ≡ ok r
      → Consistent r.0
  unfolding try_adopt_chain
  try_adopt_chain-Consistent c blocks {r} v h =
      elim (Bool-cases (leb (length blocks) (length c.blocks))) [
        | inl short ↦ let e : c ≡ r.0 = ground arith in rw e at v
        | inr longer ↦
            check_genesis-Consistent c (genesis_hash c) (first? blocks) blocks {r = r} v
              (ground arith)
      ]

  pub add_public_key-Consistent :
      (c : Blockchain) (name : Str) (key : VerifyingKey)
      → Unclaimed c name key
      → Consistent c
      → Consistent (add_public_key c name key)
  unfolding add_public_key current_state
  add_public_key-Consistent c name key u v = record {
    valid =
        ValidFrom-mono c.public_keys (insert name key c.public_keys)
          (Extends-insert c.public_keys name key u) c.authorities c.authorities (λ n h. h) 0
          (codes "0") (initial_state c) [] c.blocks v.valid;
    state = v.state;
    indexed = v.indexed;
  }

  pub register_authority-Consistent :
      (c : Blockchain) (name : Str) (key : VerifyingKey)
      → Unclaimed c name key
      → Consistent c
      → Consistent (register_authority c name key)
  unfolding register_authority current_state
  register_authority-Consistent c name key u v = record {
    valid =
        ValidFrom-mono c.public_keys (insert name key c.public_keys)
          (Extends-insert c.public_keys name key u) c.authorities (set_insert name c.authorities)
          (λ n h. ground (arith, member-set_insert n name c.authorities)) 0 (codes "0")
          (initial_state c) [] c.blocks v.valid;
    state = v.state;
    indexed = v.indexed;
  }

  pub Step-Consistent : {c d : Blockchain} → Step c d → Consistent c → Consistent d
  Step-Consistent {c} {d} (queued t id h) v =
      let e = queue_transaction-frame c t {r = (d, id)} h in rw e (Consistent-mempool c d.mempool v)
  Step-Consistent {c} (appended b h) v = try_append_block-Consistent c b v h
  Step-Consistent {c} (produced now ts name key index h) v =
      add_block-Consistent now c ts name key v h
  Step-Consistent {c} (sealed_pool now name key e) v =
      rw e (seal_mempool-Consistent now c name key v)
  Step-Consistent {c} (adopted blocks replaced h) v = try_adopt_chain-Consistent c blocks v h
  Step-Consistent {c} (learned name key u e) v = rw e (add_public_key-Consistent c name key u v)
  Step-Consistent {c} (enrolled name key u e) v =
      rw e (register_authority-Consistent c name key u v)

  Reach-Consistent : {c d : Blockchain} → Consistent c → Reach c d → Consistent d
  Reach-Consistent v here = v
  Reach-Consistent v (next r s) = Step-Consistent s (Reach-Consistent v r)

  -- Whatever succession of operations a node performs from a fresh chain on, if it gives no name a
  -- second key, its blocks validate, and its balances and nonces are those of its transfers.
  pub Reach-new :
      (authority : Str) (keys : Keys) {chain : Blockchain}
      → Reach (new authority keys) chain
      → (validate_chain chain ≡ true)
        × (current_state chain ≡ settled_chain (initial_state chain) chain.blocks)
  Reach-new authority keys {chain} r =
      let c = Reach-Consistent (new-Consistent authority keys) r in
      (validate_chain_of_Consistent chain c, c.state)
