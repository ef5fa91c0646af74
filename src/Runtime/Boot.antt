-- ===== src/Runtime/Boot.antt =====
-- The start of a node, in zion-core/src/bin/node.rs and zion-core/src/storage.rs.
use mathlib.Core.Option.{some-injective}
use block_rock.Base.{
  ◌≡◌, refl, sym, ap, ◌∙◌, subst, true, Bool-cases, inl, inr, Option, Option-cases, none, some, [],
  Str, codes, Result-cases, get-insert_self, member, arith,
}
use block_rock.Crypto.{Crypto}
use block_rock.Ledger.{Keys, replay_from}
use block_rock.Ledger.Valid.{settled_chain, ValidFrom, valid_of_replay_from}
use block_rock.Blockchain
use block_rock.Blockchain.{
  index_blocks, Blockchain, public_key, register_authority, replay, validate_chain, current_state,
}
use block_rock.Blockchain.Consistent.{Consistent, initial_state, validate_chain_of_Consistent}
use block_rock.Blockchain.Reach.{new-Consistent, register_authority-Consistent}
use block_rock.Node.{Node, NodeIdentity}
use block_rock.Runtime.{
  Loaded, absent, unreadable, present, load_or_create, register_if_authority, save_at_start,
  start_node,
}

module _ ⦃crypto : Crypto⦄ where
  pub validate_chain-valid :
      (c : Blockchain)
      → validate_chain c ≡ true
      → ValidFrom c.authorities c.public_keys 0 (codes "0") (initial_state c) [] c.blocks
  unfolding validate_chain replay Blockchain.validate
  validate_chain-valid c h =
      elim (Result-cases
        (replay_from c.authorities c.public_keys 0 (codes "0") (initial_state c) [] c.blocks)) [
          | inl (r, e) ↦
              (valid_of_replay_from c.authorities c.public_keys 0 (codes "0") (initial_state c) []
                c.blocks {r = r} e).0
          | inr (x, e) ↦ ground (arith, e, h)
        ]

  -- The balances, the nonces and the index of a chain are those of its blocks, whether these are valid or
  -- not.
  pub record Recorded (c : Blockchain) : Type 0 where
    pub state : current_state c ≡ settled_chain (initial_state c) c.blocks
    pub indexed : c.transaction_index ≡ index_blocks 0 c.blocks []

  pub Consistent-Recorded : (c : Blockchain) → Consistent c → Recorded c
  Consistent-Recorded c v = record { state = v.state; indexed = v.indexed }

  Recorded-Consistent : (c : Blockchain) → Recorded c → validate_chain c ≡ true → Consistent c
  Recorded-Consistent c v h = record {
    valid = validate_chain-valid c h;
    state = v.state;
    indexed = v.indexed;
  }

  register_if_authority-Recorded :
      (identity : NodeIdentity) (c : Blockchain)
      → Recorded c
      → Recorded (register_if_authority identity c)
  unfolding register_if_authority register_authority current_state
  register_if_authority-Recorded identity c v =
      elim (Bool-cases (member identity.name c.authorities)) [
        | inl listed ↦
            rw (listed, register_if_authority) (record { state = v.state; indexed = v.indexed })
        | inr follower ↦ rw (follower, register_if_authority) v
      ]

  -- A node that may seal holds its own key as the one of its name.
  abbrev pub OwnsName : NodeIdentity → Blockchain → Type 0
  OwnsName identity c =
      member identity.name c.authorities ≡ true
      → public_key c identity.name ≡ some (crypto.verifying_key identity.signing_key)

  register_if_authority-OwnsName :
      (identity : NodeIdentity) (c : Blockchain)
      → OwnsName identity (register_if_authority identity c)
  unfolding register_if_authority register_authority public_key
  register_if_authority-OwnsName identity c =
      elim (Bool-cases (member identity.name c.authorities)) [
        | inl listed ↦
            rw (listed, register_if_authority)
              (λ m.
                get-insert_self identity.name (crypto.verifying_key identity.signing_key)
                  c.public_keys)
        | inr follower ↦ rw (follower, register_if_authority) (λ m. ground (arith, m, follower))
      ]

  load_or_create-Recorded :
      (identity : NodeIdentity) (initial : Keys) (loaded : Loaded) {c : Blockchain}
      → ((d : Blockchain) → loaded ≡ present d → Recorded d)
      → load_or_create identity initial loaded ≡ some c
      → Recorded c
  unfolding load_or_create
  load_or_create-Recorded identity initial absent h e =
      let f : Blockchain.new identity.name initial ≡ _ = some-injective _ _ e in
      subst Recorded f (Consistent-Recorded _ (new-Consistent identity.name initial))
  load_or_create-Recorded identity initial unreadable h e = cc
  load_or_create-Recorded identity initial (present d) h e =
      subst Recorded (some-injective _ _ e) (h d refl)

  pub save_at_start_lem :
      (disk : Option Str) (c : Blockchain) {node : Node}
      → save_at_start disk c ≡ some node
      → (node.chain ≡ c) × (node.stored ≡ some c)
  unfolding save_at_start
  save_at_start_lem (some x) c e = cc
  save_at_start_lem none c e =
      let f = some-injective _ _ e in
      (sym (ap (λ (n : Node). n.chain) f), sym (ap (λ (n : Node). n.stored) f))

  -- What a node starts with, if it starts: a chain whose blocks are valid under the keys that it holds and
  -- whose balances, nonces and index are those of its blocks, which is on disk, and in which its own key
  -- is that of its name if it may seal. Of a chain that was loaded only the balances, the nonces and the
  -- index must be those of its blocks: whether these are valid the start checks.
  pub start_node-Consistent :
      (disk : Option Str) (identity : NodeIdentity) (initial : Keys) (loaded : Loaded) (node : Node)
      → ((c : Blockchain) → loaded ≡ present c → Recorded c)
      → start_node disk identity initial loaded ≡ some node
      → Consistent node.chain × (node.stored ≡ some node.chain) × OwnsName identity node.chain
  unfolding start_node
  start_node-Consistent disk identity initial loaded node h e =
      elim (Option-cases (load_or_create identity initial loaded)) [
        | inl f ↦ ground (arith, f, e)
        | inr (c, f) ↦
            let d = register_if_authority identity c in
            elim (Bool-cases (validate_chain d)) [
              | inl valid ↦
                  let (n, s) = save_at_start_lem disk d (rw (f, valid, start_node) at e) in
                  (
                    rw n (
                        Recorded-Consistent d
                          (register_if_authority-Recorded identity c
                            (load_or_create-Recorded identity initial loaded h f))
                          valid),
                    s ∙ ap some (sym n),
                    rw n (register_if_authority-OwnsName identity c),
                  )
              | inr invalid ↦ ground (arith, f, invalid, e)
            ]
      ]

  register_if_authority-frame :
      (identity : NodeIdentity) (c : Blockchain)
      → ((register_if_authority identity c).blocks ≡ c.blocks)
        × (current_state (register_if_authority identity c) ≡ current_state c)
  unfolding register_if_authority register_authority current_state
  register_if_authority-frame identity c = elim (Bool-cases (member identity.name c.authorities)) [
    | inl listed ↦ rw (listed, register_if_authority) (refl, refl)
    | inr follower ↦ rw (follower, register_if_authority) (refl, refl)
  ]

  pub register_own-Consistent :
      (identity : NodeIdentity) (c : Blockchain)
      → Consistent c
      → OwnsName identity c
      → Consistent (register_if_authority identity c)
  unfolding register_if_authority public_key
  register_own-Consistent identity c v owns =
      elim (Bool-cases (member identity.name c.authorities)) [
        | inl listed ↦
            rw (listed, register_if_authority)
              (register_authority-Consistent c identity.name
                (crypto.verifying_key identity.signing_key) (inr (owns listed)) v)
        | inr follower ↦ rw (follower, register_if_authority) v
      ]

  -- A node restarts with the chain that it stopped with: if the chain is consistent, and the key of the
  -- node is still that of its name where it may seal, the start succeeds, with the same blocks and the
  -- same state, and the chain is on disk.
  pub start_node-restarts :
      (identity : NodeIdentity) (initial : Keys) (c : Blockchain)
      → Consistent c
      → OwnsName identity c
      → (node : Node) × (start_node none identity initial (present c) ≡ some node)
        × (node.chain.blocks ≡ c.blocks)
        × (current_state node.chain ≡ current_state c)
        × (node.stored ≡ some node.chain)
  unfolding start_node load_or_create save_at_start
  start_node-restarts identity initial c v owns =
      let d = register_if_authority identity c in
      let valid = validate_chain_of_Consistent d (register_own-Consistent identity c v owns) in
      let (b, s) = register_if_authority-frame identity c in
      (
        record { chain = d; stored = some d; announced = [] },
        rw (valid, start_node) refl,
        b,
        s,
        refl,
      )
