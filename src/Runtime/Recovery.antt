-- ===== src/Runtime/Recovery.antt =====
-- What a crash of the node of zion-core/src/bin/node.rs leaves: the chain on disk, from which it starts
-- again.
use block_rock.Base.{ℕ, ◌≤◌, ◌≡◌, inl, inr, true, none, some, Option, member, length}
use block_rock.Crypto.{Crypto}
use block_rock.Ledger.{Keys}
use block_rock.Mempool
use block_rock.Blockchain.{Blockchain, current_state, public_key}
use block_rock.Blockchain.Consistent.{Consistent, Consistent-mempool}
use block_rock.Blockchain.Keeping.{Keeps, Keeps-refl, Keeps-trans}
use block_rock.Node.{Node, NodeIdentity}
use block_rock.Propagation.{RequestId}
use block_rock.Runtime.{present, Running, started, start_node}
use block_rock.Runtime.Boot.{start_node-restarts}
use block_rock.Runtime.Keeping.{Advances}
use block_rock.Runtime.Advancing.{LifeStep-Advances}
use block_rock.Runtime.Life.{Life, begins, goes_on, Life-Sound}

module _ ⦃crypto : Crypto⦄ (first : Blockchain) where
  -- A chain that is no shorter than the one the node started with, and keeps its keys and authorities.
  pub record Recoverable (c : Blockchain) : Type 0 where
    pub consistent : Consistent c
    pub kept : Keeps first c

  -- What is on disk.
  pub record Saved (stored : Option Blockchain) : Type 0 where
    pub chain : Blockchain
    pub written : stored ≡ some chain
    pub recoverable : Recoverable chain

  pub Saved-Advances :
      {node node' : Node}
      → Saved node.stored
      → Recoverable node'.chain
      → Advances node node'
      → Saved node'.stored
  Saved-Advances {node} {node'} saved r a = elim a.stores [
    | inl same ↦ rw same saved
    | inr fresh ↦ record { chain = node'.chain; written = fresh; recoverable = r }
  ]

  module _ (request_id : ℕ → RequestId) (identity : NodeIdentity) (node : Node) (requests : ℕ) where
    pub Life-Recoverable :
        {s : Running}
        → Recoverable node.chain
        → Saved node.stored
        → Life request_id identity (started node requests) s
        → Recoverable s.node.chain × Saved s.node.stored
    unfolding started
    Life-Recoverable r saved begins = (r, saved)
    Life-Recoverable {s} r saved (goes_on {t} before step) =
        let (q, d) = Life-Recoverable {s = t} r saved before in
        let a = LifeStep-Advances request_id identity step in
        let r' : Recoverable s.node.chain = record {
          consistent =
              (Life-Sound request_id identity node requests r.consistent (goes_on before step)).0;
          kept = Keeps-trans q.kept a.keeps;
        } in
        (r', Saved-Advances d r' a)

module _ ⦃crypto : Crypto⦄ (request_id : ℕ → RequestId) (identity : NodeIdentity) where
  -- Whenever a node that may seal stops or crashes, its file holds a chain from which it starts again:
  -- no shorter than the one it started with, and with the same blocks and the same state. It must have
  -- started with a consistent chain that is on disk, under its own key. What a file holds is read back
  -- with nothing pending.
  pub Life-recovers :
      (initial : Keys) (node : Node) (requests : ℕ) {s : Running}
      → Consistent node.chain
      → node.stored ≡ some node.chain
      → member identity.name node.chain.authorities ≡ true
      → public_key node.chain identity.name ≡ some (crypto.verifying_key identity.signing_key)
      → Life request_id identity (started node requests) s
      → (c : Blockchain) × (restarted : Node) × (s.node.stored ≡ some c)
        × (start_node none identity initial (present (record c { mempool = Mempool.empty }))
            ≡ some restarted)
        × (restarted.chain.blocks ≡ c.blocks)
        × (current_state restarted.chain ≡ current_state c)
        × (length node.chain.blocks ≤ length c.blocks)
  unfolding public_key current_state
  Life-recovers initial node requests {s} v saved listed own life =
      let r : Recoverable node.chain node.chain = record {
        consistent = v;
        kept = Keeps-refl node.chain;
      } in
      let (_, d) =
        Life-Recoverable node.chain request_id identity node requests r
          (record { chain = node.chain; written = saved; recoverable = r }) life in
      let c = d.chain in
      let k = d.recoverable.kept in
      let (restarted, ok, blocks, state, _) =
        start_node-restarts identity initial (record c { mempool = Mempool.empty })
          (Consistent-mempool c Mempool.empty d.recoverable.consistent)
          (λ m. k.keys identity.name _ own) in
      (c, restarted, d.written, ok, blocks, state, k.grown)
