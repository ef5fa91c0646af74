-- ===== src/Blockchain/Keeping.antt =====
-- What no operation of a node takes back, in blockrock-core/src/blockchain.rs and in the rules of
-- zion-core/src/network: the keys of names, the authorities, and the length of the chain.
use block_rock.Base.{
  ℕ, ◌%◌, ◌≤◌, ◌≡◌, inl, inr, List, [], ◌∷◌, Str, ok, Result-cases, length, length-append, u32_mod,
  arith,
}
use block_rock.Crypto.{Crypto, SigningKey}
use block_rock.Transaction.{Transaction}
use block_rock.Block.{Block, sealed}
use block_rock.Ledger.Trust.{Extends, Includes}
use block_rock.Mempool
use block_rock.Mempool.{Mempool}
use block_rock.Blockchain.{
  Blockchain, last_hash, try_append_block, add_block, seal_batch, seal_mempool,
}
use block_rock.Blockchain.Consistent.{try_append_block-frame}

pub record Keeps (c c' : Blockchain) : Type 0 where
  pub keys : Extends c.public_keys c'.public_keys
  pub authorities : Includes c.authorities c'.authorities
  pub grown : length c.blocks ≤ length c'.blocks

pub Keeps-refl : (c : Blockchain) → Keeps c c
Keeps-refl c = record { keys = λ name k e. e; authorities = λ name h. h; grown = omega arith }

pub Keeps-same : {c c' : Blockchain} → c' ≡ c → Keeps c c'
Keeps-same {c} {c'} e = rw e (Keeps-refl c)

pub Keeps-trans : {c d e : Blockchain} → Keeps c d → Keeps d e → Keeps c e
Keeps-trans p q = record {
  keys = λ name k h. q.keys name k (p.keys name k h);
  authorities = λ name h. q.authorities name (p.authorities name h);
  grown = omega (arith, p.grown, q.grown);
}

pub Keeps-mempool : (c : Blockchain) (pool : Mempool) → Keeps c (record c { mempool = pool })
Keeps-mempool c pool = record {
  keys = λ name k e. e;
  authorities = λ name h. h;
  grown = omega arith;
}

module _ ⦃crypto : Crypto⦄ where
  pub try_append_block-Keeps :
      (c : Blockchain) (b : Block) {c' : Blockchain} → try_append_block c b ≡ ok c' → Keeps c c'
  try_append_block-Keeps c b {c'} h =
      let (keys_same, authorities_same, blocks) = try_append_block-frame c b {c' = c'} h in
      record {
        keys = λ name k e. rw keys_same e;
        authorities = λ name m. rw authorities_same m;
        grown = rw blocks (rw (length-append c.blocks (b ∷ [])) (omega arith));
      }

  add_block-Keeps :
      (now : ℕ) (c : Blockchain) (ts : List Transaction) (name : Str) (key : SigningKey)
      {r : Blockchain × ℕ}
      → add_block now c ts name key ≡ ok r
      → Keeps c r.0
  unfolding add_block
  add_block-Keeps now c ts name key {r} h =
      let b = sealed now (length c.blocks % u32_mod) ts (last_hash c) name key in
      let appended_ok : try_append_block c b ≡ ok r.0 = ground arith in
      try_append_block-Keeps c b appended_ok

  seal_batch-Keeps :
      (now : ℕ) (c : Blockchain) (pool : Mempool) (ts : List Transaction) (name : Str)
      (key : SigningKey)
      → Keeps c (seal_batch now c pool ts name key).0
  unfolding seal_batch
  seal_batch-Keeps now c pool [] name key = Keeps-refl c
  seal_batch-Keeps now c pool (t ∷ ts) name key =
      elim (Result-cases (add_block now c (t ∷ ts) name key)) [
        | inl (r, e) ↦ rw (e, seal_batch) (add_block-Keeps now c (t ∷ ts) name key {r = r} e)
        | inr (x, e) ↦ rw (e, seal_batch) (Keeps-mempool c pool)
      ]

  pub seal_mempool-Keeps :
      (now : ℕ) (c : Blockchain) (name : Str) (key : SigningKey)
      → Keeps c (seal_mempool now c name key).0
  unfolding seal_mempool
  seal_mempool-Keeps now c name key =
      let (ts, pool) = Mempool.drain c.mempool in
      Keeps-trans (Keeps-mempool c pool)
        (seal_batch-Keeps now (record c { mempool = pool }) c.mempool ts name key)
