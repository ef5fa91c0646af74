-- ===== src/Node/Submission.antt =====
-- What a submission and a seal do to a node, errors and a failing disk included.
use block_rock.Base.{
  ℕ, ◌≡◌, ◌≢◌, ◌⊎◌, refl, Bool-cases, inl, inr, Option, some, none, Option-cases, Str, ◌==◌, Result,
  err, Result-cases, last?, arith,
}
use block_rock.Crypto.{Crypto}
use block_rock.Transaction.{Transaction}
use block_rock.Ledger.{mint_account}
use block_rock.Blockchain.{queue_transaction, seal_mempool, pending_count}
use block_rock.Blockchain.Consistent.{Consistent, Consistent-mempool, queue_transaction-frame}
use block_rock.Blockchain.Reach.{seal_mempool-Consistent}
use block_rock.Message.{Message}
use block_rock.Node.{
  NodeIdentity, Node, Queued, SubmitError, rejected, busy, announce_last, persist, seal_pending,
  seal_if_worth, submit,
}

-- What a node has announced is what it had announced before, or its chain is on disk.
abbrev pub WrittenThrough : Node → Node → Type 0
WrittenThrough node node' = (node'.announced ≡ node.announced) ⊎ (node'.stored ≡ some node'.chain)

persist-WrittenThrough :
    (disk : Option Str) (node : Node) (index : ℕ) → WrittenThrough node (persist disk node index).0
unfolding persist announce_last
persist-WrittenThrough (some e) node index = inl refl
persist-WrittenThrough none node index = elim (Option-cases (last? node.chain.blocks)) [
  | inl empty ↦ rw empty (inl refl)
  | inr (b, e) ↦ rw e (inr refl)
]

pub persist-chain :
    (disk : Option Str) (node : Node) (index : ℕ) → (persist disk node index).0.chain ≡ node.chain
unfolding persist announce_last
persist-chain (some e) node index = refl
persist-chain none node index = elim (Option-cases (last? node.chain.blocks)) [
  | inl empty ↦ rw empty refl
  | inr (b, e) ↦ rw e refl
]

-- The error, if there is one, is the node's own.
abbrev pub IsInternal : {A : Type 0} → Result SubmitError A → Type 0
IsInternal r = (m : Message) → (r ≢ err (rejected m)) × (r ≢ err (busy m))

persist-IsInternal :
    (disk : Option Str) (node : Node) (index : ℕ) → IsInternal (persist disk node index).1
unfolding persist
persist-IsInternal disk node index m = ground arith

module _ ⦃crypto : Crypto⦄ (now : ℕ) (disk : Option Str) (identity : NodeIdentity) where
  seal_pending-WrittenThrough :
      (node : Node) → WrittenThrough node (seal_pending now disk identity node).0
  unfolding seal_pending
  seal_pending-WrittenThrough node = ground (
    arith,
    persist-WrittenThrough disk (record node {
      chain = (seal_mempool now node.chain identity.name identity.signing_key).0;
    }),
  )

  pub seal_pending-chain :
      (node : Node)
      → (seal_pending now disk identity node).0.chain
        ≡ (seal_mempool now node.chain identity.name identity.signing_key).0
  unfolding seal_pending
  seal_pending-chain node = ground (
    arith,
    persist-chain disk (record node {
      chain = (seal_mempool now node.chain identity.name identity.signing_key).0;
    }),
  )

  seal_pending-IsInternal : (node : Node) → IsInternal (seal_pending now disk identity node).1
  unfolding seal_pending
  seal_pending-IsInternal node = ground (
    arith,
    persist-IsInternal disk (record node {
      chain = (seal_mempool now node.chain identity.name identity.signing_key).0;
    }),
  )

  seal_if_worth-WrittenThrough :
      (node : Node) (queued : Queued)
      → WrittenThrough node (seal_if_worth now disk identity node queued).0
  unfolding seal_if_worth
  seal_if_worth-WrittenThrough node queued = ground (arith, seal_pending-WrittenThrough node)

  pub seal_if_worth-IsInternal :
      (node : Node) (queued : Queued) → IsInternal (seal_if_worth now disk identity node queued).1
  unfolding seal_if_worth
  seal_if_worth-IsInternal node queued m = ground (arith, seal_pending-IsInternal node m)

  seal_if_worth-Consistent :
      (node : Node) (queued : Queued)
      → Consistent node.chain
      → Consistent (seal_if_worth now disk identity node queued).0.chain
  unfolding seal_if_worth
  seal_if_worth-Consistent node queued v =
      let w : Consistent (seal_pending now disk identity node).0.chain =
        rw (seal_pending-chain node)
          (seal_mempool-Consistent now node.chain identity.name identity.signing_key v) in
      ground arith

  pub seal_pending-Consistent :
      (node : Node)
      → Consistent node.chain
      → Consistent (seal_pending now disk identity node).0.chain
  seal_pending-Consistent node v =
      rw (seal_pending-chain node)
        (seal_mempool-Consistent now node.chain identity.name identity.signing_key v)

  -- A node announces a block only when the chain that holds it is on disk: after a submission
  -- nothing more is announced, or what the store wrote last is the chain.
  pub submit-WrittenThrough :
      (node : Node) (t : Transaction) → WrittenThrough node (submit now disk identity node t).0
  unfolding submit
  submit-WrittenThrough node t = elim (Bool-cases (t.sender == mint_account)) [
    | inl mint ↦ rw (mint, submit) (inl refl)
    | inr other ↦ elim (Result-cases (queue_transaction node.chain t)) [
      | inl (r, e) ↦
          rw (other, e, submit)
            (seal_if_worth-WrittenThrough (record node { chain = r.0 })
              (record { id = t.id; pending = pending_count r.0 }))
      | inr (x, e) ↦ rw (other, e, submit) (inl refl)
    ]
  ]

  -- A submission that is answered as rejected, or as too early because the pool is full, leaves the
  -- node as it was: only a failure of the node's own can have changed it.
  pub submit_refused :
      (node : Node) (t : Transaction) (m : Message)
      → ((submit now disk identity node t).1 ≡ err (rejected m))
        ⊎ ((submit now disk identity node t).1 ≡ err (busy m))
      → (submit now disk identity node t).0 ≡ node
  unfolding submit
  submit_refused node t m h = elim (Bool-cases (t.sender == mint_account)) [
    | inl mint ↦ rw (mint, submit) refl
    | inr other ↦ elim (Result-cases (queue_transaction node.chain t)) [
      | inl (r, e) ↦ ground (
        arith,
        seal_if_worth-IsInternal (record node { chain = r.0 })
            (record { id = t.id; pending = pending_count r.0 }) m,
      )
      | inr (x, e) ↦ rw (other, e, submit) refl
    ]
  ]

  -- A submission keeps a consistent chain consistent, also where sealing or the disk fails.
  pub submit-Consistent :
      (node : Node) (t : Transaction)
      → Consistent node.chain
      → Consistent (submit now disk identity node t).0.chain
  unfolding submit
  submit-Consistent node t v = elim (Bool-cases (t.sender == mint_account)) [
    | inl mint ↦ rw (mint, submit) v
    | inr other ↦ elim (Result-cases (queue_transaction node.chain t)) [
      | inl (r, e) ↦
          rw (other, e, submit)
            (seal_if_worth-Consistent (record node { chain = r.0 })
              (record { id = t.id; pending = pending_count r.0 })
              (rw (queue_transaction-frame node.chain t {r = r} e)
                (Consistent-mempool node.chain r.0.mempool v)))
      | inr (x, e) ↦ rw (other, e, submit) v
    ]
  ]
