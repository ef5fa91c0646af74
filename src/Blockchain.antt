-- ===== src/Blockchain.antt =====
-- `Blockchain` of blockrock-core/src/blockchain.rs. A method that changes the chain returns the new
-- chain; where it returns early with an error before it has written anything, the error carries no
-- chain. Writing to disk is not modelled. The clock is an argument `now`.
pub mod Index
pub mod Consistent
pub mod Reach
pub mod Room
pub mod Sealing
pub mod Lookup
pub mod Balances
pub mod Pool
pub mod Keeping
use block_rock.Base.{
  ℕ, suc, ◌%◌, Bool, true, false, not, Option, none, some, List, [], ◌∷◌, ◌++◌, Str, codes, ◌==◌,
  leb, if◌then◌else◌, is_some, and_then, Result, ok, err, ◌>>=◌, ◌>>◌, guard, ok_or, Map, get,
  get_or_zero, insert, keys, member, set_insert, length, get_elem?, first?, last?, u32_mod,
}
use block_rock.Crypto.{Crypto, VerifyingKey, SigningKey}
use block_rock.Transaction.{Transaction}
use block_rock.Block.{Block, with_timestamp, sealed}
use block_rock.ChainError.{
  ChainError, unauthorized_authority, unknown_authority_key, authority_key_mismatch,
  genesis_mismatch, reserved_sender,
}
use block_rock.Ledger.{LedgerState, Keys, mint_account, verify_block, replay_from}
use block_rock.Mempool
use block_rock.Mempool.{Mempool}

pub record Blockchain : Type 0 where
  pub blocks : List Block
  pub authority : Str
  pub authorities : List Str
  pub balances : Map ℕ
  pub initial_balances : Map ℕ
  pub nonces : Map ℕ
  pub public_keys : Keys
  pub transaction_index : Map (ℕ × ℕ)
  pub mempool : Mempool

unfoldable pub public_key : Blockchain → Str → Option VerifyingKey
public_key chain name = get name chain.public_keys

unfoldable pub next_nonce : Blockchain → Str → ℕ
next_nonce chain account = get_or_zero account chain.nonces

unfoldable pub balance_of : Blockchain → Str → ℕ
balance_of chain account = get_or_zero account chain.balances

unfoldable pub genesis_hash : Blockchain → Option Str
genesis_hash chain = and_then (first? chain.blocks) λ b. some b.hash

-- `map(|block| block.hash.clone()).unwrap_or_else(|| "0".to_string())`
abbrev pub hash_or_zero : Option Block → Str
hash_or_zero none = codes "0"
hash_or_zero (some b) = b.hash

unfoldable pub last_hash : Blockchain → Str
last_hash chain = hash_or_zero (last? chain.blocks)

unfoldable pub current_state : Blockchain → LedgerState
current_state chain = record { balances = chain.balances; nonces = chain.nonces }

unfoldable pub add_public_key : Blockchain → Str → VerifyingKey → Blockchain
add_public_key chain name key = record chain { public_keys = insert name key chain.public_keys }

unfoldable pub register_authority : Blockchain → Str → VerifyingKey → Blockchain
register_authority chain name key = record chain {
  authorities = set_insert name chain.authorities;
  public_keys = insert name key chain.public_keys;
}

unfoldable pub get_transaction : Blockchain → Str → Option Transaction
get_transaction chain id =
    and_then (get id chain.transaction_index)
      λ place. and_then (get_elem? chain.blocks place.0) λ b. get_elem? b.transactions place.1

-- Enters the transactions of the block at `block_index`, from position `position` on.
unfoldable pub index_transactions : ℕ → ℕ → List Transaction → Map (ℕ × ℕ) → Map (ℕ × ℕ)
index_transactions block_index position [] index = index
index_transactions block_index position (t ∷ ts) index =
    index_transactions block_index (suc position) ts (insert t.id (block_index, position) index)

unfoldable pub index_blocks : ℕ → List Block → Map (ℕ × ℕ) → Map (ℕ × ℕ)
unfolding index_transactions
index_blocks block_index [] index = index
index_blocks block_index (b ∷ bs) index =
    index_blocks (suc block_index) bs (index_transactions block_index 0 b.transactions index)

unfoldable pub rebuild_transaction_index : Blockchain → Blockchain
unfolding index_blocks
rebuild_transaction_index chain = record chain {
  transaction_index = index_blocks 0 chain.blocks [];
}

-- `pending_count` and `pending_weight`
unfoldable pub pending_count : Blockchain → ℕ
pending_count chain = Mempool.len chain.mempool

unfoldable pub pending_weight : Blockchain → ℕ
pending_weight chain = chain.mempool.bytes

unfoldable pub is_worth_sealing : Blockchain → Bool
is_worth_sealing chain = Mempool.is_worth_sealing chain.mempool

abbrev genesis_balances : Map ℕ
genesis_balances =
    (codes "System", 1000)
    ∷ (codes "Alice", 100)
    ∷ (codes "Bob", 50)
    ∷ (codes "Charlie", 30)
    ∷ (codes "Node1", 50)
    ∷ (codes "Node2", 0)
    ∷ []

enrol_all : Keys → List Str × Keys → List Str × Keys
enrol_all [] (authorities, public_keys) = (authorities, public_keys)
enrol_all ((name, key) ∷ rest) (authorities, public_keys) =
    enrol_all rest (set_insert name authorities, insert name key public_keys)

module _ ⦃crypto : Crypto⦄ where
  -- `Blockchain::new`
  unfoldable pub new : Str → Keys → Blockchain
  unfolding rebuild_transaction_index enrol_all
  new authority initial_authorities =
      let (authorities, public_keys) = enrol_all initial_authorities (authority ∷ [], []) in
      rebuild_transaction_index (record {
        blocks = with_timestamp 0 [] (codes "0") authority 0 ∷ [];
        authority = authority;
        authorities = authorities;
        balances = genesis_balances;
        initial_balances = genesis_balances;
        nonces = [];
        public_keys = public_keys;
        transaction_index = [];
        mempool = Mempool.empty;
      })

  unfoldable pub new_single : Str → Blockchain
  unfolding new
  new_single authority = new authority []

  unfoldable pub queue_transaction : Blockchain → Transaction → Result ChainError (Blockchain × Str)
  queue_transaction chain t = do
    guard (not (t.sender == mint_account)) (reserved_sender t.sender)
    let tx_exists = is_some (get_transaction chain t.id)
    (pool, id) ←
        Mempool.queue chain.mempool t chain.public_keys chain.balances chain.nonces tx_exists
    ok (record chain { mempool = pool }, id)

  -- `let _ = self.queue_transaction(transaction);` for each one
  unfoldable pub requeue : Blockchain → List Transaction → Blockchain
  requeue chain [] = chain
  requeue chain (t ∷ ts) =
      requeue (elim (queue_transaction chain t) [ ok r ↦ r.0 | err e ↦ chain ]) ts

  unfoldable pub reconcile_mempool : Blockchain → Blockchain
  unfolding requeue
  reconcile_mempool chain =
      let (pending, pool) = Mempool.drain chain.mempool in
      requeue (record chain { mempool = pool }) pending

  unfoldable pub commit_block : Blockchain → Block → LedgerState → Blockchain
  commit_block chain b state = reconcile_mempool (record chain {
    blocks = chain.blocks ++ b ∷ [];
    transaction_index =
        index_transactions (length chain.blocks) 0 b.transactions chain.transaction_index;
    balances = state.balances;
    nonces = state.nonces;
  })

  unfoldable pub try_append_block : Blockchain → Block → Result ChainError Blockchain
  try_append_block chain b = do
    (state, seen) ←
        verify_block chain.authorities chain.public_keys b (length chain.blocks % u32_mod)
          (last_hash chain) (current_state chain) (keys chain.transaction_index)
    ok (commit_block chain b state)

  unfoldable pub add_block :
      ℕ → Blockchain → List Transaction → Str → SigningKey → Result ChainError (Blockchain × ℕ)
  add_block now chain transactions authority signing_key = do
    guard (member authority chain.authorities) (unauthorized_authority authority)
    registered ← ok_or (get authority chain.public_keys) (unknown_authority_key authority)
    guard (registered == crypto.verifying_key signing_key) (authority_key_mismatch authority)
    let index = length chain.blocks % u32_mod
    chain' ←
        try_append_block chain
          (sealed now index transactions (last_hash chain) authority signing_key)
    ok (chain', index)

  -- The steps of `seal_mempool` behind the drain.
  unfoldable pub seal_batch :
      ℕ
      → Blockchain
      → Mempool
      → List Transaction
      → Str
      → SigningKey
      → Blockchain × Result ChainError (Option ℕ)
  seal_batch now chain pending_before [] authority signing_key = (chain, ok none)
  seal_batch now chain pending_before (t ∷ ts) authority signing_key =
      elim (add_block now chain (t ∷ ts) authority signing_key) [
        | ok (chain', index) ↦ (chain', ok (some index))
        | err e ↦ (record chain { mempool = pending_before }, err e)
      ]

  unfoldable pub seal_mempool :
      ℕ → Blockchain → Str → SigningKey → Blockchain × Result ChainError (Option ℕ)
  unfolding seal_batch
  seal_mempool now chain authority signing_key =
      let pending_before = chain.mempool in
      let (transactions, pool) = Mempool.drain chain.mempool in
      seal_batch now (record chain { mempool = pool }) pending_before transactions authority
        signing_key

  unfoldable pub replay : Blockchain → List Block → Result ChainError LedgerState
  replay chain blocks = do
    (state, seen) ←
        replay_from chain.authorities chain.public_keys 0 (codes "0")
          (record { balances = chain.initial_balances; nonces = [] }) [] blocks
    ok state

  unfoldable pub validate : Blockchain → Result ChainError (Unit {0})
  unfolding replay
  validate chain = replay chain chain.blocks >>= λ _. ok tt

  unfoldable pub validate_chain : Blockchain → Bool
  unfolding validate
  validate_chain chain = elim (validate chain) [ ok _ ↦ true | err e ↦ false ]

  -- The steps of `try_adopt_chain` behind its checks.
  unfoldable pub adopt : Blockchain → List Block → Result ChainError (Blockchain × Bool)
  adopt chain blocks = do
    state ← replay chain blocks
    ok (
      reconcile_mempool (
          rebuild_transaction_index
            (record chain { blocks = blocks; balances = state.balances; nonces = state.nonces })),
      true,
    )

  unfoldable pub check_genesis :
      Blockchain → Option Str → Option Block → List Block → Result ChainError (Blockchain × Bool)
  check_genesis chain ours none blocks = ok (chain, false)
  check_genesis chain none (some theirs) blocks = adopt chain blocks
  check_genesis chain (some ours) (some theirs) blocks =
      if ours == theirs.hash then adopt chain blocks else err genesis_mismatch

  unfoldable pub try_adopt_chain : Blockchain → List Block → Result ChainError (Blockchain × Bool)
  unfolding adopt check_genesis
  try_adopt_chain chain blocks =
      if leb (length blocks) (length chain.blocks)
      then ok (chain, false)
      else check_genesis chain (genesis_hash chain) (first? blocks) blocks
