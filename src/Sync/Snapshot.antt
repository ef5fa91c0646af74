-- ===== src/Sync/Snapshot.antt =====
-- What a snapshot can do to a node.
use block_rock.Base.{
  ◌≡◌, ◌≢◌, ◌<◌, refl, sym, ap, ◌∙◌, true, false, ◌⊎◌, inl, inr, Option, none, some, List, [], Str,
  codes, Bool, Bool-cases, leb, ok, Result-cases, length, first?, arith,
}
use block_rock.Crypto.{Crypto}
use block_rock.Block.{Block}
use block_rock.Ledger.Trust.{ValidFrom-mono, Extends, Includes}
use block_rock.Blockchain.{
  Blockchain, current_state, rebuild_transaction_index, replay, adopt, check_genesis, genesis_hash,
  try_adopt_chain,
}
use block_rock.Blockchain.Consistent.{Consistent, initial_state, reconcile_mempool-frame}
use block_rock.Blockchain.Reach.{try_adopt_chain-Consistent}
use block_rock.Sync.{
  ChainSnapshot, merge_accounts, merge_authorities, adopt_snapshot, apply_snapshot,
}
use block_rock.Sync.Keys.{merge_accounts-Learns, merge_authorities-Enrols}

-- What a node trusts more of after a snapshot was merged into it.
pub record Trusts (c c' : Blockchain) : Type 0 where
  rest : c' ≡ record c { public_keys = c'.public_keys; authorities = c'.authorities }
  keys_kept : Extends c.public_keys c'.public_keys
  authorities_kept : Includes c.authorities c'.authorities

unfoldable pub merged_of : Blockchain → ChainSnapshot → Blockchain
merged_of c s = merge_authorities (merge_accounts c s.accounts) s.authorities

pub merged_of-Trusts : (c : Blockchain) (s : ChainSnapshot) → Trusts c (merged_of c s)
unfolding merged_of
merged_of-Trusts c s =
    let m = merge_accounts c s.accounts in
    let l = merge_accounts-Learns c s.accounts in
    let e = merge_authorities-Enrols m s.authorities in
    let m' = merge_authorities m s.authorities in
    let same : m'.public_keys ≡ m.public_keys = ap (λ (x : Blockchain). x.public_keys) e.rest in
    record {
      rest =
          e.rest
          ∙ ap (λ (x : Blockchain). record x { authorities = m'.authorities }) l.rest
          ∙ ap (λ k. record c { public_keys = k; authorities = m'.authorities }) (sym same);
      keys_kept = λ name k h. rw same (l.kept name k h);
      authorities_kept =
          λ name h. e.kept name (rw (ap (λ (x : Blockchain). x.authorities) l.rest) h);
    }

module _ ⦃crypto : Crypto⦄ where
  adopt-frame :
      (c : Blockchain) (blocks : List Block) {r : Blockchain × Bool}
      → adopt c blocks ≡ ok r
      → (r.0.public_keys ≡ c.public_keys)
        × (r.0.authorities ≡ c.authorities)
        × (r.0.blocks ≡ blocks)
        × (r.1 ≡ true)
  unfolding adopt rebuild_transaction_index
  adopt-frame c blocks {r} h = elim (Result-cases (replay c blocks)) [
    | inl (state, e) ↦
        let (pool, f) = reconcile_mempool-frame (
          rebuild_transaction_index
            (record c { blocks = blocks; balances = state.balances; nonces = state.nonces })) in
        ground (
          arith,
          ap (λ (x : Blockchain). x.public_keys) f,
          ap (λ (x : Blockchain). x.authorities) f,
          ap (λ (x : Blockchain). x.blocks) f,
        )
    | inr (x, e) ↦ ground arith
  ]

  check_genesis-frame :
      (c : Blockchain) (ours : Option Str) (theirs : Option Block) (blocks : List Block)
      {r : Blockchain × Bool}
      → check_genesis c ours theirs blocks ≡ ok r
      → (r ≡ (c, false))
        ⊎ ((r.0.public_keys ≡ c.public_keys)
            × (r.0.authorities ≡ c.authorities)
            × (r.0.blocks ≡ blocks)
            × (r.1 ≡ true))
  unfolding check_genesis
  check_genesis-frame c ours none blocks {r} h = ground arith
  check_genesis-frame c none (some b) blocks {r} h = ground (arith, adopt-frame c blocks {r = r} h)
  check_genesis-frame c (some ours) (some b) blocks {r} h =
      let adopted : adopt c blocks ≡ ok r = ground arith in
      ground (arith, adopt-frame c blocks {r = r} adopted)

  -- A chain is replaced only by a longer one, and then by all of it.
  try_adopt_chain-frame :
      (c : Blockchain) (blocks : List Block) {r : Blockchain × Bool}
      → try_adopt_chain c blocks ≡ ok r
      → (r ≡ (c, false))
        ⊎ ((r.0.public_keys ≡ c.public_keys)
            × (r.0.authorities ≡ c.authorities)
            × (r.0.blocks ≡ blocks)
            × (r.1 ≡ true))
  unfolding try_adopt_chain
  try_adopt_chain-frame c blocks {r} h =
      ground (arith, check_genesis-frame c (genesis_hash c) (first? blocks) blocks {r = r})

  pub Trusts-Consistent : (c c' : Blockchain) → Trusts c c' → Consistent c → Consistent c'
  unfolding current_state
  Trusts-Consistent c c' t v = rw t.rest (record {
    valid =
        ValidFrom-mono c.public_keys c'.public_keys t.keys_kept c.authorities c'.authorities
          t.authorities_kept 0 (codes "0") (initial_state c) [] c.blocks v.valid;
    state = v.state;
    indexed = v.indexed;
  })

  restore-Trusts :
      (c c' : Blockchain)
      → Trusts c c'
      → record c' { public_keys = c.public_keys; authorities = c.authorities } ≡ c
  restore-Trusts c c' t =
      ap (λ (x : Blockchain). record x { public_keys = c.public_keys; authorities = c.authorities })
        t.rest

  pub adopt_snapshot-cases :
      (c : Blockchain) (s : ChainSnapshot)
      → (((adopt_snapshot c s).0 ≡ c) × ((adopt_snapshot c s).1 ≢ ok true))
        ⊎ ((try_adopt_chain (merged_of c s) s.blocks ≡ ok ((adopt_snapshot c s).0, true))
            × ((adopt_snapshot c s).1 ≡ ok true)
            × ((adopt_snapshot c s).0.public_keys ≡ (merged_of c s).public_keys)
            × ((adopt_snapshot c s).0.authorities ≡ (merged_of c s).authorities)
            × ((adopt_snapshot c s).0.blocks ≡ s.blocks))
  unfolding adopt_snapshot merged_of
  adopt_snapshot-cases c s =
      let m = merged_of c s in
      let t = merged_of-Trusts c s in
      elim (Result-cases (try_adopt_chain m s.blocks)) [
        | inl ((c', true), e) ↦
            rw (e, adopt_snapshot)
              (ground (arith, try_adopt_chain-frame m s.blocks {r = (c', true)} e))
        | inl ((c', false), e) ↦
            let same : c' ≡ m =
              ground (arith, try_adopt_chain-frame m s.blocks {r = (c', false)} e) in
            rw (e, adopt_snapshot) (inl (rw same (restore-Trusts c m t), λ h. ground arith))
        | inr (x, e) ↦ rw (e, adopt_snapshot) (inl (restore-Trusts c m t, λ h. ground arith))
      ]

  -- A snapshot that is not adopted leaves no trace. One that is adopted is longer than the chain it
  -- replaces, becomes the chain as a whole, and rebinds no key and drops no authority.
  pub apply_snapshot_lem :
      (c : Blockchain) (s : ChainSnapshot)
      → (((apply_snapshot c s).0 ≡ c) × ((apply_snapshot c s).1 ≢ ok true))
        ⊎ (((apply_snapshot c s).1 ≡ ok true)
            × (length c.blocks < length (apply_snapshot c s).0.blocks)
            × ((apply_snapshot c s).0.blocks ≡ s.blocks)
            × Extends c.public_keys (apply_snapshot c s).0.public_keys
            × Includes c.authorities (apply_snapshot c s).0.authorities)
  unfolding apply_snapshot
  apply_snapshot_lem c s =
      let t = merged_of-Trusts c s in
      elim (Bool-cases (leb (length s.blocks) (length c.blocks))) [
        | inl short ↦ rw (short, apply_snapshot) (inl (refl, λ h. ground arith))
        | inr longer ↦
            rw (longer, apply_snapshot)
              (elim (adopt_snapshot-cases c s) [
                | inl kept ↦ inl kept
                | inr (e, ok_true, keys_same, authorities_same, blocks_same) ↦ inr (
                  ok_true,
                  ground (arith, blocks_same),
                  blocks_same,
                  rw keys_same t.keys_kept,
                  rw authorities_same t.authorities_kept,
                )
              ])
      ]

  -- A consistent node stays consistent, whatever snapshot it is sent.
  pub apply_snapshot-Consistent :
      (c : Blockchain) (s : ChainSnapshot) → Consistent c → Consistent (apply_snapshot c s).0
  unfolding apply_snapshot
  apply_snapshot-Consistent c s v = elim (Bool-cases (leb (length s.blocks) (length c.blocks))) [
    | inl short ↦ rw (short, apply_snapshot) v
    | inr longer ↦
        rw (longer, apply_snapshot)
          (elim (adopt_snapshot-cases c s) [
            | inl (same, _) ↦ rw same v
            | inr (e, _, _, _, _) ↦
                try_adopt_chain-Consistent (merged_of c s) s.blocks
                  {r = ((adopt_snapshot c s).0, true)}
                  (Trusts-Consistent c (merged_of c s) (merged_of-Trusts c s) v) e
          ])
  ]
