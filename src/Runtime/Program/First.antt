-- ===== src/Runtime/Program/First.antt =====
-- The first start of a node that may seal, in zion-core/src/bin/node.rs: what it leaves in its files.
use block_rock.Base.{
  ◌≡◌, refl, sym, ap, ◌∙◌, inl, inr, true, some, Option, Option-cases, Bool-cases, Str, nat_eq,
  Result-cases, ok, member, length, arith, member-set_insert,
}
use block_rock.Crypto.{Crypto, SigningKey}
use block_rock.Ledger.{Keys}
use block_rock.Blockchain.{Blockchain, register_authority, validate_chain}
use block_rock.Blockchain.Consistent.{Consistent}
use block_rock.Blockchain.Keeping.{Keeps-refl}
use block_rock.Config.{Config, load}
use block_rock.Node.{Node, NodeIdentity}
use block_rock.Node.Identity.{
  KeyFile, not_found, unreadable, holds, KeyFailure, never, in_create_dir, in_set_permissions,
  in_write, create_key, load_or_create_key,
}
use block_rock.Runtime.{Loaded, present, load_or_create, register_if_authority, start_node}
use block_rock.Runtime.Boot.{Consistent-Recorded, start_node-Consistent, save_at_start_lem}
use block_rock.Runtime.Program.{
  Files, Startup, Begun, write, saved, store_chain, lists, begin_as, begin_with, begin,
}
use block_rock.Runtime.Program.Registering.{launch-same, write_same}
use block_rock.Runtime.Program.Starts.{Established, Home}

-- A node that gets an identity has its key, of 32 bytes, in its file.
load_or_create_key-holds :
    (name : Str) (key : SigningKey) (failure : KeyFailure) (file : KeyFile)
    {identity : NodeIdentity}
    → nat_eq (length key) 32 ≡ true
    → (load_or_create_key name key failure file).1 ≡ some identity
    → ((load_or_create_key name key failure file).0 ≡ holds identity.signing_key)
      × (nat_eq (length identity.signing_key) 32 ≡ true)
      × (identity.name ≡ name)
unfolding load_or_create_key create_key
load_or_create_key-holds name key never not_found {identity} l e = ground (arith, l, e)
load_or_create_key-holds name key in_create_dir not_found l e = cc
load_or_create_key-holds name key in_set_permissions not_found l e = cc
load_or_create_key-holds name key (in_write partial) not_found l e = cc
load_or_create_key-holds name key failure unreadable l e = cc
load_or_create_key-holds name key failure (holds seed) {identity} l e = ground (arith, e)

module _ ⦃crypto : Crypto⦄ where
  register_if_authority-listed :
      (identity : NodeIdentity) (c : Blockchain)
      → member identity.name c.authorities ≡ true
      → member identity.name (register_if_authority identity c).authorities ≡ true
  unfolding register_if_authority register_authority
  register_if_authority-listed identity c listed =
      rw (listed, register_if_authority)
        (ground (arith, member-set_insert identity.name identity.name c.authorities, listed))

  start_node-listed :
      (disk : Option Str) (identity : NodeIdentity) (initial : Keys) (loaded : Loaded) {node : Node}
      → start_node disk identity initial loaded ≡ some node
      → lists identity (load_or_create identity initial loaded) ≡ true
      → member identity.name node.chain.authorities ≡ true
  unfolding start_node
  start_node-listed disk identity initial loaded {node} e l =
      elim (Option-cases (load_or_create identity initial loaded)) [
        | inl f ↦ ground (arith, f, e)
        | inr (c, f) ↦
            let d = register_if_authority identity c in
            elim (Bool-cases (validate_chain d)) [
              | inl valid ↦
                  let (n, s) =
                    save_at_start_lem disk d {node = node} (rw (f, valid, start_node) at e) in
                  rw n (register_if_authority-listed identity c (rw f at l))
              | inr invalid ↦ ground (arith, f, invalid, e)
            ]
      ]

  -- How the part behind the identity got to the loop.
  record Entered (o : Startup) (config : Config) (identity : NodeIdentity) (files : Files)
      (b : Begun) : Type 0 where
    config_same : b.config ≡ config
    identity_same : b.identity ≡ identity
    sealing :
        b.is_authority
        ≡ lists identity
            (load_or_create identity config.initial_authorities (files.chains config.chain_path))
    node_started :
        start_node o.disk identity config.initial_authorities (files.chains config.chain_path)
        ≡ some b.node
    files_same : (begin_as o config identity files).0 ≡ store_chain config b.node.stored files

  begin_as-Entered :
      (o : Startup) (config : Config) (identity : NodeIdentity) (files : Files) {b : Begun}
      → (begin_as o config identity files).1 ≡ ok b
      → Entered o config identity files b
  unfolding begin_as
  begin_as-Entered o config identity files {b} h =
      elim (Option-cases
        (start_node o.disk identity config.initial_authorities (files.chains config.chain_path))) [
          | inl e ↦ ground (arith, e, h)
          | inr (node, e) ↦
              let same = launch-same o _ b (rw (e, begin_as) at h) in
              record {
                config_same = ap (λ (b : Begun). b.config) same;
                identity_same = ap (λ (b : Begun). b.identity) same;
                sealing = ap (λ (b : Begun). b.is_authority) same;
                node_started = e ∙ ap some (sym (ap (λ (b : Begun). b.node) same));
                files_same = rw (e, begin_as) (rw (ap (λ (b : Begun). b.node) same) refl);
              }
        ]

  -- How the program got to the loop.
  record Launched (env : Str → Option Str) (o : Startup) (files : Files) (b : Begun) : Type 0 where
    loaded : load env ≡ ok b.config
    named : b.identity.name ≡ b.config.authority_name
    full : nat_eq (length b.identity.signing_key) 32 ≡ true
    sealing :
        b.is_authority
        ≡ lists b.identity (
            load_or_create b.identity b.config.initial_authorities
              (files.chains b.config.chain_path))
    node_started :
        start_node o.disk b.identity b.config.initial_authorities (files.chains b.config.chain_path)
        ≡ some b.node
    files_same :
        (begin env o files).0
        ≡ store_chain b.config b.node.stored (record files {
          keys = write b.config.authority_key_path (holds b.identity.signing_key) files.keys;
        })

  begin_with-begin_as :
      (o : Startup) (config : Config) (files : Files) {identity : NodeIdentity}
      → (load_or_create_key config.authority_name o.generated o.key_failure
          (files.keys config.authority_key_path)).1
        ≡ some identity
      → (load_or_create_key config.authority_name o.generated o.key_failure
          (files.keys config.authority_key_path)).0
        ≡ holds identity.signing_key
      → begin_with o config files
        ≡ begin_as o config identity (record files {
          keys = write config.authority_key_path (holds identity.signing_key) files.keys;
        })
  unfolding begin_with
  begin_with-begin_as o config files f k = rw (f, begin_with) (rw k refl)

  begin_with-Launched :
      (env : Str → Option Str) (o : Startup) (config : Config) (files : Files) {b : Begun}
      → nat_eq (length o.generated) 32 ≡ true
      → load env ≡ ok config
      → (begin_with o config files).1 ≡ ok b
      → Launched env o files b
  unfolding begin begin_with
  begin_with-Launched env o config files {b} l e h =
      elim (Option-cases
        (load_or_create_key config.authority_name o.generated o.key_failure
          (files.keys config.authority_key_path)).1) [
            | inl f ↦ ground (arith, f, h)
            | inr (identity, f) ↦
                let (k, full, named) =
                  load_or_create_key-holds config.authority_name o.generated o.key_failure
                    (files.keys config.authority_key_path) {identity = identity} l f in
                let same = begin_with-begin_as o config files {identity = identity} f k in
                let n = begin_as-Entered o config identity _ {b = b} (rw same at h) in
                record {
                  loaded = e ∙ ap ok (sym n.config_same);
                  named = rw (n.identity_same, n.config_same) named;
                  full = rw n.identity_same full;
                  sealing = rw (n.identity_same, n.config_same) n.sealing;
                  node_started = rw (n.identity_same, n.config_same) n.node_started;
                  files_same =
                      rw (e, begin) (rw same (rw (n.identity_same, n.config_same) n.files_same));
                }
          ]

  begin-Launched :
      (env : Str → Option Str) (o : Startup) (files : Files) {b : Begun}
      → nat_eq (length o.generated) 32 ≡ true
      → (begin env o files).1 ≡ ok b
      → Launched env o files b
  unfolding begin
  begin-Launched env o files {b} l h = elim (Result-cases (load env)) [
    | inl (config, e) ↦ begin_with-Launched env o config files {b = b} l e (rw (e, begin) at h)
    | inr (x, e) ↦ ground (arith, e, h)
  ]

  -- A program that has started as a node that may seal has left the files of that node, whose chain is
  -- on disk.
  pub begin-Home :
      (env : Str → Option Str) (o : Startup) (files : Files) (b : Begun)
      → nat_eq (length o.generated) 32 ≡ true
      → ((c : Blockchain) → files.chains b.config.chain_path ≡ present c → Consistent c)
      → (begin env o files).1 ≡ ok b
      → b.is_authority ≡ true
      → (load env ≡ ok b.config)
        × Established b.config b.identity b.node.chain
        × Home b.config b.identity b.node.chain (begin env o files).0
  begin-Home env o files b l read h sealing =
      let n = begin-Launched env o files {b = b} l h in
      let (v, stored, owns) =
        start_node-Consistent o.disk b.identity b.config.initial_authorities
          (files.chains b.config.chain_path) b.node (λ c e. Consistent-Recorded c (read c e))
          n.node_started in
      let listed =
        start_node-listed o.disk b.identity b.config.initial_authorities
          (files.chains b.config.chain_path) {node = b.node} n.node_started
          (sym n.sealing ∙ sealing) in
      (
        n.loaded,
        record { named = n.named; full = n.full; listed = listed; own = owns listed },
        rw (n.files_same, stored)
            (record {
              key_held =
                  write_same b.config.authority_key_path (holds b.identity.signing_key) files.keys;
              chain = b.node.chain;
              chain_held = write_same b.config.chain_path (saved b.node.chain) files.chains;
              recoverable = record { consistent = v; kept = Keeps-refl b.node.chain };
            }),
      )
