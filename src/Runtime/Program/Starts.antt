-- ===== src/Runtime/Program/Starts.antt =====
-- One start of the program of zion-core/src/bin/node.rs, where its files are those of a node that may
-- seal.
use block_rock.Base.{
  subst, ◌≡◌, inl, inr, refl, sym, ap, ◌∙◌, true, none, some, Option, Option-cases, Str, nat_eq,
  Result, ok, member, length, arith,
}
use block_rock.Crypto.{Crypto}
use block_rock.Mempool
use block_rock.Blockchain.{Blockchain, current_state, public_key}
use block_rock.Blockchain.Consistent.{Consistent-mempool}
use block_rock.Blockchain.Keeping.{Keeps-trans, Keeps-mempool}
use block_rock.Config.{Config, load}
use block_rock.Node.{Node, NodeIdentity}
use block_rock.Node.Identity.{holds, load_or_create_key}
use block_rock.Storage.Reload.{rebuild_of_skipped}
use block_rock.Runtime.{present, Loaded, load_or_create, start_node}
use block_rock.Runtime.Boot.{OwnsName, start_node-restarts, register_own-Consistent}
use block_rock.Runtime.Recovery.{Recoverable}
use block_rock.Runtime.Program.{
  Files, Startup, StartError, Begun, write, saved, store_chain, lists, begin_as, begin_with, begin,
}
use block_rock.Runtime.Program.Registering.{
  write_same, register_if_authority-Keeps, start_node-registers, launch-same,
}

-- A node that may seal, with its configuration, and the chain that it had at first.
module _ ⦃crypto : Crypto⦄ (config : Config) (identity : NodeIdentity) (first : Blockchain) where
  pub record Established : Type 0 where
    pub named : identity.name ≡ config.authority_name
    pub full : nat_eq (length identity.signing_key) 32 ≡ true
    pub listed : member identity.name first.authorities ≡ true
    pub own : public_key first identity.name ≡ some (crypto.verifying_key identity.signing_key)

  -- Files from which the program starts as that node.
  pub record Home (files : Files) : Type 0 where
    pub key_held : files.keys config.authority_key_path ≡ holds identity.signing_key
    pub chain : Blockchain
    pub chain_held : files.chains config.chain_path ≡ saved chain
    pub recoverable : Recoverable first chain

  -- What the program holds when it has started as that node.
  pub record Ready (b : Begun) : Type 0 where
    pub config_same : b.config ≡ config
    pub identity_same : b.identity ≡ identity
    pub sealing : b.is_authority ≡ true
    pub recoverable : Recoverable first b.node.chain
    pub stored : b.node.stored ≡ some b.node.chain

  pub record Outcome (r : Files × Result StartError Begun) : Type 0 where
    pub home : Home r.0
    pub ready : (b : Begun) → r.1 ≡ ok b → Ready b

  pub store_chain-Home :
      (files : Files) (stored : Option Blockchain) (c : Blockchain)
      → Home files
      → stored ≡ some c
      → Recoverable first c
      → Home (store_chain config stored files)
  store_chain-Home files stored c h e r = rw e (record {
    key_held = h.key_held;
    chain = c;
    chain_held = write_same config.chain_path (saved c) files.chains;
    recoverable = r;
  })

  -- What the file of the chain is read as.
  pub chain_read :
      (files : Files)
      → (h : Home files)
      → files.chains config.chain_path ≡ present (record (h.chain) { mempool = Mempool.empty })
  chain_read files h =
      h.chain_held ∙ ap present (rebuild_of_skipped h.chain h.recoverable.consistent)

  module _ (established : Established) where
    saved-OwnsName :
        (c : Blockchain)
        → Recoverable first c
        → OwnsName identity (record c { mempool = Mempool.empty })
    unfolding public_key
    saved-OwnsName c r m = r.kept.keys identity.name _ established.own

    start_node-Recoverable :
        (disk : Option Str) (c : Blockchain) {node : Node}
        → Recoverable first c
        → start_node disk identity config.initial_authorities
            (present (record c { mempool = Mempool.empty }))
          ≡ some node
        → Recoverable first node.chain × (node.stored ≡ some node.chain)
    start_node-Recoverable disk c {node} r e =
        let c' : Blockchain = record c { mempool = Mempool.empty } in
        let (n, s) =
          start_node-registers disk identity config.initial_authorities c' {node = node} e in
        let owns = saved-OwnsName c r in
        (
          rw n (record {
            consistent =
                register_own-Consistent identity c'
                  (Consistent-mempool c Mempool.empty r.consistent) owns;
            kept = Keeps-trans r.kept (
                Keeps-trans (Keeps-mempool c Mempool.empty)
                  (register_if_authority-Keeps identity c' owns));
          }),
          s,
        )

    loaded-listed :
        (loaded : Loaded) (c : Blockchain)
        → loaded ≡ present (record c { mempool = Mempool.empty })
        → Recoverable first c
        → lists identity (load_or_create identity config.initial_authorities loaded) ≡ true
    unfolding load_or_create
    loaded-listed loaded c e r = rw e (r.kept.authorities identity.name established.listed)

    begin_as-Outcome :
        (o : Startup) (files : Files) → Home files → Outcome (begin_as o config identity files)
    unfolding begin_as load_or_create
    begin_as-Outcome o files h =
        elim (Option-cases (
          start_node o.disk identity config.initial_authorities (files.chains config.chain_path))) [
            | inl e ↦ rw (e, begin_as) (record { home = h; ready = λ b f. ground (arith, f) })
            | inr (node, e) ↦
                let (r, s) = start_node-Recoverable o.disk h.chain {node = node} h.recoverable (
                  sym (
                    ap (start_node o.disk identity config.initial_authorities) (chain_read files h))
                  ∙ e) in
                rw (e, begin_as)
                  (record {
                    home = store_chain-Home files node.stored node.chain h s r;
                    ready = λ b f. subst Ready (sym (launch-same o _ b f)) (record {
                      config_same = refl;
                      identity_same = refl;
                      sealing =
                          loaded-listed (files.chains config.chain_path) h.chain
                            (chain_read files h) h.recoverable;
                      recoverable = r;
                      stored = s;
                    });
                  })
          ]

    -- The files, when the key was read.
    abbrev pub reread : Files → Files
    reread files = record files {
      keys = write config.authority_key_path (holds identity.signing_key) files.keys;
    }

    reread-Home : (files : Files) → Home files → Home (reread files)
    reread-Home files h = record {
      key_held = write_same config.authority_key_path (holds identity.signing_key) files.keys;
      chain = h.chain;
      chain_held = h.chain_held;
      recoverable = h.recoverable;
    }

    -- The key of the node is read, whatever key would be generated.
    pub begin-begin_as :
        (env : Str → Option Str) (o : Startup) (files : Files)
        → load env ≡ ok config
        → Home files
        → begin env o files ≡ begin_as o config identity (reread files)
    unfolding begin begin_with load_or_create_key
    begin-begin_as env o files loaded h =
        let e : load_or_create_key config.authority_name o.generated o.key_failure
              (files.keys config.authority_key_path)
            ≡ (holds identity.signing_key, some identity) =
          rw h.key_held (rw established.full (rw (sym established.named) refl)) in
        rw (loaded, begin) (rw (e, begin_with) (rw e refl))

    -- From such files the program ends before its loop or starts as that node, and leaves such files.
    pub begin-Outcome :
        (env : Str → Option Str) (o : Startup) (files : Files)
        → load env ≡ ok config
        → Home files
        → Outcome (begin env o files)
    begin-Outcome env o files loaded h =
        rw (begin-begin_as env o files loaded h)
          (begin_as-Outcome o (reread files) (reread-Home files h))

    -- The program starts from such files, with the chain that they hold, if the disk works and the swarm
    -- and the servers come up.
    pub begin-restarts :
        (env : Str → Option Str) (o : Startup) (files : Files)
        → load env ≡ ok config
        → o.disk ≡ none
        → o.set_up ≡ true
        → (h : Home files)
        → (b : Begun) × ((begin env o files).1 ≡ ok b)
          × (b.node.chain.blocks ≡ h.chain.blocks)
          × (current_state b.node.chain ≡ current_state h.chain)
    unfolding begin_as current_state
    begin-restarts env o files loaded working up h =
        let (node, e, blocks, state, _) =
          start_node-restarts identity config.initial_authorities
            (record (h.chain) { mempool = Mempool.empty })
            (Consistent-mempool h.chain Mempool.empty h.recoverable.consistent)
            (saved-OwnsName h.chain h.recoverable) in
        let path = files.chains config.chain_path in
        let listed = loaded-listed path h.chain (chain_read files h) h.recoverable in
        (
          record { config = config; identity = identity; is_authority = true; node = node },
          rw (begin-begin_as env o files loaded h) (
              rw ((chain_read files h), begin_as)
                (rw (working, begin_as) (rw (e, begin_as) (rw (up, listed) refl)))),
          blocks,
          state,
        )
