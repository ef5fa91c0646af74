-- ===== src/Runtime/Halt.antt =====
-- The end of a node, in zion-core/src/bin/node.rs: what was accepted is not lost.
use block_rock.Base.{
  ℕ, ◌+◌, ◌<◌, ◌≡◌, ◌≢◌, refl, true, none, some, [], Str, ok, keys, get_or_zero, total, last?,
  Option-cases, inl, inr, length, u64_mod,
}
use block_rock.Crypto.{Crypto, SignsVerifiably}
use block_rock.Blockchain.{Blockchain, current_state, seal_mempool}
use block_rock.Blockchain.Sealing.{CanSeal, Sealed, seal_mempool_succeeds}
use block_rock.Mempool.Queued.{PoolOk}
use block_rock.Node.{Node, NodeIdentity, announce_last, persist, seal_pending}
use block_rock.Node.Submission.{persist-chain}
use block_rock.Runtime.{Running, stop_node}

persist-stored : (node : Node) (index : ℕ) → (persist none node index).0.stored ≡ some node.chain
unfolding persist announce_last
persist-stored node index = elim (Option-cases (last? node.chain.blocks)) [
  | inl empty ↦ rw empty refl
  | inr (b, e) ↦ rw e refl
]

module _ ⦃crypto : Crypto⦄ where
  seal_pending-sealed :
      (now : ℕ) (identity : NodeIdentity) (node : Node) (chain : Blockchain) (index : ℕ)
      → seal_mempool now node.chain identity.name identity.signing_key ≡ (chain, ok (some index))
      → ((seal_pending now none identity node).0.chain ≡ chain)
        × ((seal_pending now none identity node).0.stored ≡ some chain)
  unfolding seal_pending
  seal_pending-sealed now identity node chain index e =
      let node' : Node = record node { chain = chain } in
      rw (e, seal_pending) (rw e (persist-chain none node' index, persist-stored node' index))

  -- A node that may seal and stops with a pool in order seals all that is pending before it exits: it
  -- is in the last block of the chain on disk, nothing is pending any more, and the program returns the
  -- failure that stopped it, if there was one. The disk must work, signatures verify, the sum of balances
  -- be in the range of a u64, and every nonce have room there for the pool.
  pub stop_node_seals :
      (now : ℕ) (identity : NodeIdentity) (s : Running)
      → SignsVerifiably crypto
      → CanSeal s.node.chain identity.name identity.signing_key
      → PoolOk s.node.chain.public_keys
          (current_state s.node.chain)
          (keys s.node.chain.transaction_index)
          s.node.chain.mempool
      → ((x : Str)
          → get_or_zero x s.node.chain.nonces + length s.node.chain.mempool.pending < u64_mod)
      → total s.node.chain.balances < u64_mod
      → s.node.chain.mempool.pending ≢ []
      → let (node, failure) = stop_node now none identity true s in
        (node.stored ≡ some node.chain)
        × Sealed now s.node.chain identity.name identity.signing_key node.chain
        × (failure ≡ s.failure)
  unfolding stop_node
  stop_node_seals now identity s law can pool room supply held =
      let (chain, e, sealed) =
        seal_mempool_succeeds now s.node.chain identity.name identity.signing_key law can pool room
          supply held in
      let (c, d) = seal_pending-sealed now identity s.node chain _ e in
      (rw (c, d) refl, rw c sealed, refl)
