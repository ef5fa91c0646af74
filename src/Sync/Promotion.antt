-- ===== src/Sync/Promotion.antt =====
-- Who can become an authority by a snapshot of zion-core/src/network/sync.rs.
use block_rock.Base.{
  ℕ, ◌+◌, ◌%◌, ◌≡◌, ◌<◌, refl, sym, subst, true, false, some, none, List, [], ◌∷◌, ◌++◌,
  length-append, Str, codes, ==_refl, ok, get, get-insert, insert, member, member-set_insert,
  set_insert, length, first?, u32_mod, arith,
}
use block_rock.Crypto.{Crypto, SigningKey, SignsVerifiably}
use block_rock.Block.{Block}
use block_rock.Ledger.{LedgerState}
use block_rock.Ledger.Valid.{ValidBlock, settled_chain, noted_chain, replay_from_of_valid}
use block_rock.Ledger.Append.{hash_after, ValidFrom-append}
use block_rock.Blockchain.{
  Blockchain, public_key, add_public_key, last_hash, replay, adopt, check_genesis, genesis_hash,
  try_adopt_chain, reconcile_mempool, rebuild_transaction_index,
}
use block_rock.Blockchain.Consistent.{Consistent, initial_state, last_hash_lem}
use block_rock.Blockchain.Sealing.{CanSeal, next_block, next_block-Valid}
use block_rock.Sync.{
  ChainSnapshot, learn, merge_accounts, merge_authority, merge_authorities, adopt_snapshot,
  apply_snapshot,
}
use block_rock.Sync.Snapshot.{merged_of, merged_of-Trusts, Trusts-Consistent, adopt_snapshot-cases}

module _ ⦃crypto : Crypto⦄ where
  -- The chain of a node with one empty block more, which a stranger sealed, who is also named as an
  -- authority.
  unfoldable pub promotion : ℕ → Blockchain → Str → SigningKey → ChainSnapshot
  promotion now c name key = record {
    blocks = c.blocks ++ next_block now c [] name key ∷ [];
    accounts = (name, crypto.verifying_key key) ∷ [];
    authorities = name ∷ [];
  }

  merged_of-promotion :
      (now : ℕ) (c : Blockchain) (name : Str) (key : SigningKey)
      → get name c.public_keys ≡ none
      → member name c.authorities ≡ false
      → merged_of c (promotion now c name key) ≡ record c {
        public_keys = insert name (crypto.verifying_key key) c.public_keys;
        authorities = set_insert name c.authorities;
      }
  unfolding merged_of promotion merge_accounts merge_authorities merge_authority learn public_key
      add_public_key
  merged_of-promotion now c name key unknown unlisted =
      ground (arith, get-insert name name (crypto.verifying_key key) c.public_keys)

  -- A consistent chain takes one block more of whoever can seal.
  replay-next_block :
      (now : ℕ) (c : Blockchain) (name : Str) (key : SigningKey)
      → SignsVerifiably crypto
      → Consistent c
      → CanSeal c name key
      → replay c (c.blocks ++ next_block now c [] name key ∷ [])
        ≡ ok (settled_chain (initial_state c) (c.blocks ++ next_block now c [] name key ∷ []))
  unfolding replay
  replay-next_block now c name key law v can =
      let b = next_block now c [] name key in
      let state = settled_chain (initial_state c) c.blocks in
      let seen = noted_chain [] c.blocks in
      let z : length c.blocks ≡ 0 + length c.blocks = omega arith in
      let at_tip : ValidBlock c.authorities c.public_keys (length c.blocks % u32_mod)
          (hash_after (codes "0") c.blocks) state seen b =
        subst
          (λ h. ValidBlock c.authorities c.public_keys (length c.blocks % u32_mod) h state seen b)
          (last_hash_lem c c.blocks refl)
          (next_block-Valid now c [] name key state seen law can tt) in
      let valid : ValidBlock c.authorities c.public_keys ((0 + length c.blocks) % u32_mod)
          (hash_after (codes "0") c.blocks) state seen b =
        subst
          (λ n.
            ValidBlock c.authorities c.public_keys (n % u32_mod) (hash_after (codes "0") c.blocks)
              state seen b)
          z at_tip in
      ground (
        arith,
        replay_from_of_valid c.authorities c.public_keys 0 (codes "0") (initial_state c) []
            (c.blocks ++ b ∷ [])
            (ValidFrom-append c.authorities c.public_keys 0 (codes "0") (initial_state c) []
              c.blocks b v.valid valid),
      )

  first?-append :
      (bs : List Block) (x b : Block) → first? bs ≡ some x → first? (bs ++ b ∷ []) ≡ some x
  first?-append [] x b h = cc
  first?-append (y ∷ bs) x b h = h

  try_adopt_chain_ok :
      (c : Blockchain) (x b : Block) {state : LedgerState}
      → first? c.blocks ≡ some x
      → replay c (c.blocks ++ b ∷ []) ≡ ok state
      → (c' : Blockchain) × (try_adopt_chain c (c.blocks ++ b ∷ []) ≡ ok (c', true))
  unfolding try_adopt_chain check_genesis genesis_hash adopt
  try_adopt_chain_ok c x b {state} first replays = (
    reconcile_mempool (
        rebuild_transaction_index (record c {
          blocks = c.blocks ++ b ∷ [];
          balances = state.balances;
          nonces = state.nonces;
        })),
    ground
        (arith, length-append c.blocks (b ∷ []), first?-append c.blocks x b first, ==_refl x.hash),
  )

  adopt_snapshot_adopted :
      (c : Blockchain) (s : ChainSnapshot) {c' : Blockchain}
      → try_adopt_chain (merged_of c s) s.blocks ≡ ok (c', true)
      → adopt_snapshot c s ≡ (c', ok true)
  unfolding adopt_snapshot merged_of
  adopt_snapshot_adopted c s e = rw (e, adopt_snapshot)

  apply_snapshot_adopted :
      (c : Blockchain) (s : ChainSnapshot) {c' : Blockchain}
      → length c.blocks < length s.blocks
      → try_adopt_chain (merged_of c s) s.blocks ≡ ok (c', true)
      → ((apply_snapshot c s).1 ≡ ok true)
        × ((apply_snapshot c s).0.authorities ≡ (merged_of c s).authorities)
        × ((apply_snapshot c s).0.public_keys ≡ (merged_of c s).public_keys)
  unfolding apply_snapshot
  apply_snapshot_adopted c s longer e =
      ground (arith, adopt_snapshot_adopted c s e, adopt_snapshot-cases c s)

  -- Any name that a node has no key for and that is no authority becomes one, with a key of its own
  -- choice, by a single snapshot that the node adopts: the chain of the node and one empty block,
  -- which that name sealed. Signatures must verify, and the node be consistent and have a genesis.
  pub apply_snapshot-promotion :
      (now : ℕ) (c : Blockchain) (name : Str) (key : SigningKey) (x : Block)
      → SignsVerifiably crypto
      → Consistent c
      → first? c.blocks ≡ some x
      → get name c.public_keys ≡ none
      → member name c.authorities ≡ false
      → let after = apply_snapshot c (promotion now c name key) in
        (after.1 ≡ ok true)
        × (member name after.0.authorities ≡ true)
        × (get name after.0.public_keys ≡ some (crypto.verifying_key key))
  unfolding promotion last_hash
  apply_snapshot-promotion now c name key x law v first unknown unlisted =
      let s = promotion now c name key in
      let b = next_block now c [] name key in
      let m : Blockchain = record c {
        public_keys = insert name (crypto.verifying_key key) c.public_keys;
        authorities = set_insert name c.authorities;
      } in
      let merged : merged_of c s ≡ m = merged_of-promotion now c name key unknown unlisted in
      let can : CanSeal m name key = record {
        listed = ground (arith, member-set_insert name name c.authorities, ==_refl name);
        registered = ground (arith, get-insert name name (crypto.verifying_key key) c.public_keys);
      } in
      let consistent : Consistent m =
        subst (λ (y : Blockchain). Consistent y) merged
          (Trusts-Consistent c (merged_of c s) (merged_of-Trusts c s) v) in
      let (c', e) =
        try_adopt_chain_ok m x b first (replay-next_block now m name key law consistent can) in
      let (ok_true, authorities_same, keys_same) =
        apply_snapshot_adopted c s (rw (length-append c.blocks (b ∷ [])) (omega arith))
          (subst (λ (y : Blockchain). try_adopt_chain y s.blocks ≡ ok (c', true)) (sym merged) e) in
      (ok_true, rw (authorities_same, merged) can.listed, rw (keys_same, merged) can.registered)
