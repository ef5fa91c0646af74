-- ===== src/Runtime/Lockout.antt =====
-- A chain that keeps the node of zion-core/src/bin/node.rs from starting, and how a peer makes a node
-- store it by a snapshot of zion-core/src/network/sync.rs.
use block_rock.Base.{
  ℕ, suc, ◌≡◌, ◌<◌, refl, true, false, Bool-cases, inl, inr, Option, some, none, List, [], ◌∷◌,
  ◌++◌, Str, codes, ok, get, get-insert_self, member, length, first?, u32_mod, arith,
}
use block_rock.Crypto.{Crypto, SigningKey, SignsVerifiably}
use block_rock.Block.{Block, verify_seal, sealed, with_timestamp, signing_payload}
use block_rock.Ledger.{LedgerState, Keys}
use block_rock.Ledger.Valid.{ValidFrom, Sealed, settled_all, noted_all}
use block_rock.Mempool
use block_rock.Blockchain.{Blockchain, register_authority, validate_chain}
use block_rock.Blockchain.Consistent.{Consistent, initial_state}
use block_rock.Blockchain.Sealing.{next_block}
use block_rock.Sync.{apply_snapshot}
use block_rock.Sync.Snapshot.{apply_snapshot_lem}
use block_rock.Sync.Promotion.{promotion, apply_snapshot-promotion}
use block_rock.Node.{NodeIdentity}
use block_rock.Runtime.{present, load_or_create, register_if_authority, start_node}
use block_rock.Runtime.Boot.{validate_chain-valid}

first?-length : (bs : List Block) {x : Block} → first? bs ≡ some x → 0 < length bs
first?-length [] h = cc
first?-length (b ∷ bs) h = omega arith

module _ ⦃crypto : Crypto⦄ where
  -- The seal of the last block of a valid chain, which is not the genesis.
  last-Sealed :
      (authorities : List Str) (keys : Keys) (index : ℕ) (previous : Str) (state : LedgerState)
      (seen : List Str) (bs : List Block) (b : Block)
      → ValidFrom authorities keys index previous state seen (bs ++ b ∷ [])
      → 0 < b.index
      → Sealed authorities keys b
  last-Sealed authorities keys index previous state seen [] b v h = elim v.0.sealed [
    | inl genesis ↦ absurd (omega arith)
    | inr (_, s) ↦ s
  ]
  last-Sealed authorities keys index previous state seen (x ∷ bs) b v h =
      last-Sealed authorities keys (suc index) x.hash (settled_all state x.transactions)
        (noted_all seen x.transactions) bs b v.1 h

  -- If the last block of a chain was sealed in the name of the node and not with its key, the node does
  -- not start on that chain.
  start_node-refuses :
      (disk : Option Str) (identity : NodeIdentity) (initial : Keys) (c : Blockchain)
      (bs : List Block) (b : Block)
      → c.blocks ≡ bs ++ b ∷ []
      → member identity.name c.authorities ≡ true
      → b.authority ≡ identity.name
      → 0 < b.index
      → verify_seal b (crypto.verifying_key identity.signing_key) ≡ false
      → start_node disk identity initial (present c) ≡ none
  unfolding start_node load_or_create register_if_authority register_authority
  start_node-refuses disk identity initial c bs b tip listed named later foreign =
      let own = crypto.verifying_key identity.signing_key in
      let d = register_authority c identity.name own in
      elim (Bool-cases (validate_chain d)) [
        | inl valid ↦
            let v = validate_chain-valid d valid in
            let s =
              last-Sealed d.authorities d.public_keys 0 (codes "0") (initial_state d) [] bs b
                (rw tip at v) later in
            ground (
              arith,
              s.known,
              s.genuine,
              named,
              get-insert_self identity.name own c.public_keys,
              foreign,
            )
        | inr invalid ↦ rw (listed, invalid, start_node) refl
      ]

  foreign_seal :
      (now : ℕ) (c : Blockchain) (name : Str) (key : SigningKey) (own : Str)
      → ((message : Str) → crypto.verify own message (crypto.sign key message) ≡ false)
      → verify_seal (next_block now c [] name key) own ≡ false
  unfolding sealed verify_seal with_timestamp signing_payload
  foreign_seal now c name key own foreign = foreign _

  -- A node whose name is not an authority, and which knows no key of its name, can be kept from ever
  -- starting again by a single snapshot that it adopts: from a chain on disk in which a stranger has
  -- promoted the name of the node under a key of his own, `start_node` fails, whatever the disk does.
  -- Signatures must verify, and none of the stranger's under the key of the node; the node must be
  -- consistent and have a genesis, and the index of its next block fit a u32.
  pub apply_snapshot-locks_out :
      (now : ℕ) (identity : NodeIdentity) (initial : Keys) (c : Blockchain) (key : SigningKey)
      (x : Block) (disk : Option Str)
      → SignsVerifiably crypto
      → ((message : Str)
          → crypto.verify
              (crypto.verifying_key identity.signing_key)
              message
              (crypto.sign key message)
            ≡ false)
      → Consistent c
      → first? c.blocks ≡ some x
      → length c.blocks < u32_mod
      → get identity.name c.public_keys ≡ none
      → member identity.name c.authorities ≡ false
      → let after = apply_snapshot c (promotion now c identity.name key) in
        (after.1 ≡ ok true)
        × (start_node disk identity initial (present (record (after.0) { mempool = Mempool.empty }))
            ≡ none)
  unfolding promotion sealed with_timestamp
  apply_snapshot-locks_out now identity initial c key x disk law foreign v first fits unknown
        unlisted =
      let (adopted, listed, _) =
        apply_snapshot-promotion now c identity.name key x law v first unknown unlisted in
      let after = (apply_snapshot c (promotion now c identity.name key)).0 in
      let b = next_block now c [] identity.name key in
      let tip : after.blocks ≡ c.blocks ++ b ∷ [] =
        ground (arith, apply_snapshot_lem c (promotion now c identity.name key), adopted) in
      (
        adopted,
        start_node-refuses disk identity initial (record after { mempool = Mempool.empty }) c.blocks
            b tip listed refl (omega (arith, first?-length c.blocks first))
            (foreign_seal now c identity.name key (crypto.verifying_key identity.signing_key)
              foreign),
      )
