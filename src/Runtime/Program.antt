-- ===== src/Runtime/Program.antt =====
-- `main` of zion-core/src/bin/node.rs as a whole: from the environment and the files to the loop, and what
-- one run of the program leaves in its files. The file of the key and that of the chain are different
-- files. The swarm and the servers are those of libp2p, Rocket and tonic; whether they come up is an
-- argument.
pub mod Registering
pub mod First
pub mod Starts
pub mod Restarts
use block_rock.Base.{
  ℕ, Bool, true, false, ◌≡◌, Option, none, some, [], Str, ◌==◌, if◌then◌else◌, Result, ok, err,
  member,
}
use block_rock.Crypto.{Crypto, SigningKey}
use block_rock.Mempool
use block_rock.Blockchain.{Blockchain, rebuild_transaction_index}
use block_rock.Config.{Config, ConfigError, load}
use block_rock.Node.{Node, NodeIdentity}
use block_rock.Node.Identity.{KeyFile, KeyFailure, load_or_create_key}
use block_rock.Propagation.{RequestId}
use block_rock.Runtime.{
  Loaded, absent, present, Running, started, is_over, load_or_create, start_node, stop_node,
}
use block_rock.Runtime.Life.{Life}

-- What is on disk, by path: keys, and chains.
pub record Files : Type 0 where
  pub keys : Str → KeyFile
  pub chains : Str → Loaded

-- What comes from outside while the program starts: the key that would be generated, where storing it
-- would fail, the error of the disk, if it has one, and whether the swarm and the servers come up.
pub record Startup : Type 0 where
  pub generated : SigningKey
  pub key_failure : KeyFailure
  pub disk : Option Str
  pub set_up : Bool

-- Why `main` returns before its loop.
pub data StartError : Type 0 where
  bad_config : ConfigError → StartError
  no_identity no_chain not_set_up : StartError

-- What `main` holds when its loop begins.
pub record Begun : Type 0 where
  pub config : Config
  pub identity : NodeIdentity
  pub is_authority : Bool
  pub node : Node

-- A file is written at its path.
abbrev pub write : {A : Type 0} → Str → A → (Str → A) → Str → A
write path value files p = if path == p then value else files p

-- What `load_from_file` of blockrock-core/src/blockchain.rs reads of what `save_to_file` wrote of a chain,
-- where the JSON gives back what was written, as in Storage: the index and the pool are skipped, and
-- the index is rebuilt.
abbrev pub saved : Blockchain → Loaded
saved c =
    present
      (rebuild_transaction_index (record c { transaction_index = []; mempool = Mempool.empty }))

-- The files, with what is stored of a chain.
abbrev pub store_chain : Config → Option Blockchain → Files → Files
store_chain config none files = files
store_chain config (some c) files = record files {
  chains = write config.chain_path (saved c) files.chains;
}

-- `chain.authorities.contains(&identity.name)` at the chain that was loaded.
abbrev pub lists : NodeIdentity → Option Blockchain → Bool
lists identity none = false
lists identity (some c) = member identity.name c.authorities

module _ ⦃crypto : Crypto⦄ where
  -- Behind the start of the node: the swarm, and the servers.
  abbrev pub launch : Startup → Begun → Result StartError Begun
  launch o b = if o.set_up then ok b else err not_set_up

  -- The part behind the identity.
  unfoldable pub begin_as :
      Startup → Config → NodeIdentity → Files → Files × Result StartError Begun
  unfolding start_node load_or_create
  begin_as o config identity files =
      let loaded = files.chains config.chain_path in
      elim (start_node o.disk identity config.initial_authorities loaded) [
        | none ↦ (files, err no_chain)
        | some node ↦ (
          store_chain config node.stored files,
          launch o (record {
            config = config;
            identity = identity;
            is_authority =
                lists identity (load_or_create identity config.initial_authorities loaded);
            node = node;
          }),
        )
      ]

  -- The part behind the configuration.
  unfoldable pub begin_with : Startup → Config → Files → Files × Result StartError Begun
  unfolding begin_as load_or_create_key
  begin_with o config files =
      let (key_file, identity) =
        load_or_create_key config.authority_name o.generated o.key_failure
          (files.keys config.authority_key_path) in
      let files' : Files = record files {
        keys = write config.authority_key_path key_file files.keys;
      } in
      elim identity [
        | none ↦ (files', err no_identity)
        | some identity ↦ begin_as o config identity files'
      ]

  -- `main` up to its loop, in the environment `env`.
  unfoldable pub begin : (Str → Option Str) → Startup → Files → Files × Result StartError Begun
  unfolding begin_with load
  begin env o files = elim (load env) [
    | err e ↦ (files, err (bad_config e))
    | ok config ↦ begin_with o config files
  ]

  module _ (request_id : ℕ → RequestId) (env : Str → Option Str) where
    -- A run of the program, by the files before and behind it: it ends before its loop, or it crashes at
    -- any time in it, or its loop ends and the node stops.
    pub data Session (files : Files) (files' : Files) : Type 0 where
      ends_early :
          (o : Startup) {e : StartError}
          → (begin env o files).1 ≡ err e
          → files' ≡ (begin env o files).0
          → Session files files'
      crashes :
          (o : Startup) (requests : ℕ) {b : Begun} {s : Running}
          → (begin env o files).1 ≡ ok b
          → Life request_id b.identity (started b.node requests) s
          → files' ≡ store_chain b.config s.node.stored (begin env o files).0
          → Session files files'
      stops :
          (o : Startup) (requests now : ℕ) (disk : Option Str) {b : Begun} {s : Running}
          → (begin env o files).1 ≡ ok b
          → Life request_id b.identity (started b.node requests) s
          → is_over s ≡ true
          → files'
            ≡ store_chain b.config
                (stop_node now disk b.identity b.is_authority s).0.stored
                (begin env o files).0
          → Session files files'

    -- Runs of the program, one after the other.
    pub data Sessions (files : Files) : Files → Type 0 where
      no_more : Sessions files files
      and_then_runs :
          {files' files'' : Files}
          → Sessions files files'
          → Session files' files''
          → Sessions files files''
