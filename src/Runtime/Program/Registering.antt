-- ===== src/Runtime/Program/Registering.antt =====
-- What the parts of a start do in zion-core/src/bin/node.rs.
use block_rock.Base.{
  ◌≡◌, inl, inr, refl, sym, ap, ◌∙◌, some, Option, Bool-cases, Str, ok, member, ==_refl, arith,
  member-set_insert,
}
use block_rock.Crypto.{Crypto}
use block_rock.Ledger.{Keys}
use block_rock.Blockchain.{Blockchain, public_key, register_authority, validate_chain}
use block_rock.Blockchain.Keeping.{Keeps, Keeps-refl}
use block_rock.Blockchain.Reach.{Extends-insert}
use block_rock.Node.{Node, NodeIdentity}
use block_rock.Runtime.{present, load_or_create, register_if_authority, start_node}
use block_rock.Runtime.Boot.{OwnsName, save_at_start_lem}
use block_rock.Runtime.Program.{Startup, Begun, write, launch}

pub write_same :
    {A : Type 0} (path : Str) (value : A) (files : Str → A) → write path value files path ≡ value
write_same path value files = rw (==_refl path) refl

module _ ⦃crypto : Crypto⦄ where
  pub register_if_authority-Keeps :
      (identity : NodeIdentity) (c : Blockchain)
      → OwnsName identity c
      → Keeps c (register_if_authority identity c)
  unfolding register_if_authority register_authority public_key
  register_if_authority-Keeps identity c owns =
      elim (Bool-cases (member identity.name c.authorities)) [
        | inl listed ↦
            rw (listed, register_if_authority)
              (record {
                keys =
                    Extends-insert c.public_keys identity.name
                      (crypto.verifying_key identity.signing_key) (inr (owns listed));
                authorities =
                    λ name h. ground (arith, member-set_insert name identity.name c.authorities, h);
                grown = omega arith;
              })
        | inr follower ↦ rw (follower, register_if_authority) (Keeps-refl c)
      ]

  -- What a node starts with is what it loaded, with its key.
  pub start_node-registers :
      (disk : Option Str) (identity : NodeIdentity) (initial : Keys) (c : Blockchain) {node : Node}
      → start_node disk identity initial (present c) ≡ some node
      → (node.chain ≡ register_if_authority identity c) × (node.stored ≡ some node.chain)
  unfolding start_node load_or_create
  start_node-registers disk identity initial c {node} e =
      elim (Bool-cases (validate_chain (register_if_authority identity c))) [
        | inl valid ↦
            let (n, s) =
              save_at_start_lem disk (register_if_authority identity c) {node = node}
                (rw (valid, start_node) at e) in
            (n, s ∙ ap some (sym n))
        | inr invalid ↦ ground (arith, invalid, e)
      ]

  pub launch-same : (o : Startup) (b b' : Begun) → launch o b ≡ ok b' → b' ≡ b
  launch-same o b b' e = ground (arith, e)
