-- ===== src/Runtime/Keeping.antt =====
-- What a node keeps over its own operations and over what its peers send: nothing that it trusts is
-- taken back, and what its store holds is what it held or the chain.
use block_rock.Base.{
  err, ok, Result, ◌≡◌, ◌⊎◌, inl, inr, refl, ◌∙◌, Option, none, some, Bool-cases, Option-cases, [],
  ◌∷◌, Str, ◌==◌, Bytes-discrete, Result-cases, ℕ, last?, length-append, arith,
}
use block_rock.Crypto.{Crypto, VerifyingKey}
use block_rock.Transaction.{Transaction}
use block_rock.Ledger.{mint_account}
use block_rock.Ledger.Trust.{Extends}
use block_rock.Blockchain.{
  Blockchain, add_public_key, queue_transaction, seal_mempool, pending_count,
}
use block_rock.Blockchain.Consistent.{queue_transaction-frame}
use block_rock.Blockchain.Keeping.{
  Keeps, Keeps-refl, Keeps-same, Keeps-trans, Keeps-mempool, seal_mempool-Keeps,
}
use block_rock.Sync.{
  BlockAnnouncement, ChainSnapshot, appended, known, out_of_order, apply_announcement,
  apply_snapshot,
}
use block_rock.Sync.Announcement.{
  apply_announcement_atomic, apply_announcement-keys, apply_announcement-blocks,
}
use block_rock.Sync.Snapshot.{apply_snapshot_lem}
use block_rock.Gossip.{TransactionAnnouncement, accepted, apply_transaction}
use block_rock.Gossip.Admission.{Admitted, apply_transaction_atomic, apply_transaction_accepted}
use block_rock.Node.{
  Node, NodeIdentity, Queued, announce_last, persist, seal_pending, seal_if_worth, submit,
}
use block_rock.Node.Submission.{seal_pending-chain}
use block_rock.Rest.{RegisterAccount, bind_account, register_key, register_account}
use block_rock.Rest.Decoding.{ApiFailure, decode_public_key}
use block_rock.Rest.Accounts.{register_account-chain}
use block_rock.Blockchain.Reach.{Extends-insert}

-- The store holds what it held before, or the chain.
abbrev pub Stores : Option Blockchain → Blockchain → Option Blockchain → Type 0
Stores before chain after = (after ≡ before) ⊎ (after ≡ some chain)

persist-Stores :
    (disk : Option Str) (node : Node) (index : ℕ)
    → Stores node.stored (persist disk node index).0.chain (persist disk node index).0.stored
unfolding persist announce_last
persist-Stores (some e) node index = inl refl
persist-Stores none node index = elim (Option-cases (last? node.chain.blocks)) [
  | inl empty ↦ rw empty (inr refl)
  | inr (b, e) ↦ rw e (inr refl)
]

-- What an operation of the node keeps.
pub record Advances (node node' : Node) : Type 0 where
  pub keeps : Keeps node.chain node'.chain
  pub stores : Stores node.stored node'.chain node'.stored

pub Advances-refl : (node : Node) → Advances node node
Advances-refl node = record { keeps = Keeps-refl node.chain; stores = inl refl }

module _ ⦃crypto : Crypto⦄ where
  pub apply_announcement-Keeps :
      (c : Blockchain) (a : BlockAnnouncement) → Keeps c (apply_announcement c a).0
  apply_announcement-Keeps c a = elim (Result-cases ((apply_announcement c a).1)) [
    | inl (appended, e) ↦ record {
      keys = λ name k h. ground (arith, apply_announcement-keys c a name);
      authorities = λ name h. rw (apply_announcement-keys c a name).0 h;
      grown =
          rw (apply_announcement-blocks c a e)
            (rw (length-append c.blocks (a.block ∷ [])) (omega arith));
    }
    | inl (known, e) ↦ Keeps-same (apply_announcement_atomic c a λ h. ground arith)
    | inl (out_of_order, e) ↦ Keeps-same (apply_announcement_atomic c a λ h. ground arith)
    | inr (x, e) ↦ Keeps-same (apply_announcement_atomic c a λ h. ground arith)
  ]

  pub apply_snapshot-Keeps : (c : Blockchain) (s : ChainSnapshot) → Keeps c (apply_snapshot c s).0
  apply_snapshot-Keeps c s = elim (apply_snapshot_lem c s) [
    | inl (same, _) ↦ Keeps-same same
    | inr (_, longer, _, keys, authorities) ↦ record {
      keys = keys;
      authorities = authorities;
      grown = omega arith;
    }
  ]

  Admitted-Extends :
      {c c' : Blockchain} (sender : Str) (key : VerifyingKey)
      → Admitted c c' sender key
      → Extends c.public_keys c'.public_keys
  Admitted-Extends sender key l name k h = elim (Bytes-discrete name sender) [
    | yes e ↦ ground (arith, e, l.sender_key, l.kept, h)
    | no n ↦ l.others name n ∙ h
  ]

  pub apply_transaction-Keeps :
      (c : Blockchain) (a : TransactionAnnouncement) → Keeps c (apply_transaction c a).0
  apply_transaction-Keeps c a = elim (Result-cases ((apply_transaction c a).1)) [
    | inl (accepted, e) ↦
        let l = apply_transaction_accepted c a e in
        record {
          keys = Admitted-Extends a.transaction.sender a.sender_key l;
          authorities = λ name h. rw l.authorities h;
          grown = rw l.blocks (omega arith);
        }
    | inl (_, e) ↦ Keeps-same (apply_transaction_atomic c a λ h. ground arith)
    | inr (x, e) ↦ Keeps-same (apply_transaction_atomic c a λ h. ground arith)
  ]

  module _ (now : ℕ) (disk : Option Str) (identity : NodeIdentity) where
    seal_pending-stored :
        (node : Node)
        → Stores node.stored
            (seal_pending now disk identity node).0.chain
            (seal_pending now disk identity node).0.stored
    unfolding seal_pending
    seal_pending-stored node = ground (
      arith,
      persist-Stores disk (record node {
        chain = (seal_mempool now node.chain identity.name identity.signing_key).0;
      }),
    )

    pub seal_pending-Advances :
        (node : Node) → Advances node (seal_pending now disk identity node).0
    seal_pending-Advances node = record {
      keeps =
          rw (seal_pending-chain now disk identity node)
            (seal_mempool-Keeps now node.chain identity.name identity.signing_key);
      stores = seal_pending-stored node;
    }

    seal_if_worth-node :
        (node : Node) (queued : Queued)
        → ((seal_if_worth now disk identity node queued).0 ≡ node)
          ⊎ ((seal_if_worth now disk identity node queued).0
              ≡ (seal_pending now disk identity node).0)
    unfolding seal_if_worth
    seal_if_worth-node node queued = ground arith

    seal_if_worth-Advances :
        (node : Node) (queued : Queued)
        → Advances node (seal_if_worth now disk identity node queued).0
    seal_if_worth-Advances node queued = elim (seal_if_worth-node node queued) [
      | inl same ↦ rw same (Advances-refl node)
      | inr sealed ↦ rw sealed (seal_pending-Advances node)
    ]

    pub submit-Advances :
        (node : Node) (t : Transaction) → Advances node (submit now disk identity node t).0
    unfolding submit
    submit-Advances node t = elim (Bool-cases (t.sender == mint_account)) [
      | inl mint ↦ rw (mint, submit) (Advances-refl node)
      | inr other ↦ elim (Result-cases (queue_transaction node.chain t)) [
        | inl (r, e) ↦
            let queued : Node = record node { chain = r.0 } in
            let a =
              seal_if_worth-Advances queued (record { id = t.id; pending = pending_count r.0 }) in
            let k : Keeps node.chain r.0 =
              rw (queue_transaction-frame node.chain t {r = r} e)
                (Keeps-mempool node.chain r.0.mempool) in
            rw (other, e, submit) (record { keeps = Keeps-trans k a.keeps; stores = a.stores })
        | inr (x, e) ↦ rw (other, e, submit) (Advances-refl node)
      ]
    ]

  module _ (disk : Option Str) (node : Node) where
    bind_account-Stores :
        (name : Str) (key : VerifyingKey)
        → Stores node.stored
            (bind_account disk node name key).0.chain
            (bind_account disk node name key).0.stored
    unfolding bind_account
    bind_account-Stores name key = ground arith

    register_key-Stores :
        (name : Str) (key : Result ApiFailure VerifyingKey)
        → Stores node.stored
            (register_key disk node name key).0.chain
            (register_key disk node name key).0.stored
    unfolding register_key
    register_key-Stores name (err e) = inl refl
    register_key-Stores name (ok key) = ground (arith, bind_account-Stores name key)

    register_account-Stores :
        (r : RegisterAccount)
        → Stores node.stored
            (register_account disk node r).0.chain
            (register_account disk node r).0.stored
    unfolding register_account
    register_account-Stores r =
        ground (arith, register_key-Stores r.name (decode_public_key r.public_key))

    register_account-Keeps :
        (r : RegisterAccount) → Keeps node.chain (register_account disk node r).0.chain
    unfolding add_public_key
    register_account-Keeps r = elim (register_account-chain disk node r) [
      | inl same ↦ Keeps-same same
      | inr (k, free, e) ↦ rw e (record {
        keys = Extends-insert node.chain.public_keys r.name k free;
        authorities = λ name h. h;
        grown = omega arith;
      })
    ]

    pub register_account-Advances :
        (r : RegisterAccount) → Advances node (register_account disk node r).0
    register_account-Advances r = record {
      keeps = register_account-Keeps r;
      stores = register_account-Stores r;
    }
