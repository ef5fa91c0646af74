-- ===== src/Runtime/Program/Restarts.antt =====
-- The program of zion-core/src/bin/node.rs, started again and again with the same environment.
use block_rock.Base.{
  ℕ, ◌≡◌, refl, inl, inr, true, none, Option, Bool-cases, Str, nat_eq, ok, length,
}
use block_rock.Crypto.{Crypto, SigningKey}
use block_rock.Blockchain.{Blockchain, current_state}
use block_rock.Blockchain.Consistent.{Consistent}
use block_rock.Blockchain.Keeping.{Keeps, Keeps-trans}
use block_rock.Config.{Config, load}
use block_rock.Node.{NodeIdentity}
use block_rock.Node.Identity.{KeyFailure}
use block_rock.Node.Submission.{seal_pending-Consistent}
use block_rock.Propagation.{RequestId}
use block_rock.Runtime.{present, stop_node, Running, started}
use block_rock.Runtime.Keeping.{seal_pending-Advances}
use block_rock.Runtime.Life.{Life}
use block_rock.Runtime.Recovery.{Recoverable, Saved, Saved-Advances, Life-Recoverable}
use block_rock.Runtime.Program.{
  Files, Startup, begin, Begun, saved, store_chain, Session, ends_early, crashes, stops, Sessions,
  no_more, and_then_runs,
}
use block_rock.Runtime.Program.First.{begin-Home}
use block_rock.Runtime.Program.Starts.{
  begin-restarts, Established, Home, Ready, store_chain-Home, begin-Outcome,
}

module _ ⦃crypto : Crypto⦄ (request_id : ℕ → RequestId) (env : Str → Option Str) (config : Config)
    (identity : NodeIdentity) (first : Blockchain) (loaded : load env ≡ ok config)
    (established : Established config identity first) where
  -- What the node of a run leaves in its file when it crashes.
  Life-Saved :
      (requests : ℕ) {b : Begun} {s : Running}
      → Ready config identity first b
      → Life request_id b.identity (started b.node requests) s
      → Recoverable first s.node.chain × Saved first s.node.stored
  Life-Saved requests {b} {s} r life =
      Life-Recoverable first request_id b.identity b.node requests r.recoverable
        (record { chain = b.node.chain; written = r.stored; recoverable = r.recoverable }) life

  Saved-Home :
      (files : Files) (b : Begun) (stored : Option Blockchain)
      → Ready config identity first b
      → Home config identity first files
      → Saved first stored
      → Home config identity first (store_chain b.config stored files)
  Saved-Home files b stored r h s =
      rw r.config_same
        (store_chain-Home config identity first files stored s.chain h s.written s.recoverable)

  stop_node-Saved :
      (now : ℕ) (disk : Option Str) (b : Begun) (s : Running)
      → Recoverable first s.node.chain
      → Saved first s.node.stored
      → Saved first (stop_node now disk b.identity b.is_authority s).0.stored
  unfolding stop_node
  stop_node-Saved now disk b s r saved = elim (Bool-cases b.is_authority) [
    | inl e ↦
        let a = seal_pending-Advances now disk b.identity s.node in
        rw e (
          Saved-Advances first {node = s.node} saved
            (record {
              consistent = seal_pending-Consistent now disk b.identity s.node r.consistent;
              kept = Keeps-trans r.kept a.keeps;
            })
            a)
    | inr e ↦ rw e saved
  ]

  Session-Home :
      {files files' : Files}
      → Home config identity first files
      → Session request_id env files files'
      → Home config identity first files'
  Session-Home {files} h (ends_early o e same) =
      rw same (begin-Outcome config identity first established env o files loaded h).home
  Session-Home {files} h (crashes o requests {b} {s} e life same) =
      let out = begin-Outcome config identity first established env o files loaded h in
      let r = out.ready b e in
      rw same (Saved-Home _ b s.node.stored r out.home (Life-Saved requests r life).1)
  Session-Home {files} h (stops o requests now disk {b} {s} e life over same) =
      let out = begin-Outcome config identity first established env o files loaded h in
      let r = out.ready b e in
      let (alive, d) = Life-Saved requests r life in
      rw same (Saved-Home _ b _ r out.home (stop_node-Saved now disk b s alive d))

  Sessions-Home :
      {files files' : Files}
      → Home config identity first files
      → Sessions request_id env files files'
      → Home config identity first files'
  Sessions-Home h no_more = h
  Sessions-Home h (and_then_runs before run) = Session-Home (Sessions-Home h before) run

module _ ⦃crypto : Crypto⦄ (request_id : ℕ → RequestId) where
  -- A program that has started once as a node that may seal starts as that node for ever: after any runs
  -- in the same environment, each of which ends before its loop, crashes at any time or stops, it
  -- starts with the same configuration and the same key, whichever would be generated, and may seal; its
  -- chain has the blocks and the state of the one on disk, and it has kept all keys and authorities and
  -- grown no shorter. The disk must work at that start, the swarm and the servers must come up, a
  -- generated key must have 32 bytes, and a chain that the first start found must be consistent.
  pub begin-Sessions :
      (env : Str → Option Str) (o : Startup) (files : Files) (b : Begun) {files' : Files}
      → nat_eq (length o.generated) 32 ≡ true
      → ((c : Blockchain) → files.chains b.config.chain_path ≡ present c → Consistent c)
      → (begin env o files).1 ≡ ok b
      → b.is_authority ≡ true
      → Sessions request_id env (begin env o files).0 files'
      → (key : SigningKey) (failure : KeyFailure)
      → let o' : Startup = record {
        generated = key;
        key_failure = failure;
        disk = none;
        set_up = true;
      } in
        (b' : Begun) × (c : Blockchain) × ((begin env o' files').1 ≡ ok b')
        × (b'.config ≡ b.config)
        × (b'.identity ≡ b.identity)
        × (b'.is_authority ≡ true)
        × (files'.chains b.config.chain_path ≡ saved c)
        × (b'.node.chain.blocks ≡ c.blocks)
        × (current_state b'.node.chain ≡ current_state c)
        × Keeps b.node.chain b'.node.chain
  begin-Sessions env o files b {files'} l read e sealing runs key failure =
      let o' : Startup = record {
        generated = key;
        key_failure = failure;
        disk = none;
        set_up = true;
      } in
      let (loaded, established, first) = begin-Home env o files b l read e sealing in
      let h =
        Sessions-Home request_id env b.config b.identity b.node.chain loaded established first
          runs in
      let (b', started, blocks, state) =
        begin-restarts b.config b.identity b.node.chain established env o' files' loaded refl refl
          h in
      let r =
        (begin-Outcome b.config b.identity b.node.chain established env o' files' loaded h).ready b'
          started in
      (
        b', h.chain, started, r.config_same, r.identity_same, r.sealing, h.chain_held, blocks,
        state, r.recoverable.kept,
      )
