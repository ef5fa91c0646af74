-- ===== src/Rest/Accounts.antt =====
-- What the requests of zion-core/src/api/rest.rs can do to a node.
use block_rock.Base.{
  ℕ, ◌≡◌, ◌≢◌, ◌⊎◌, inl, inr, refl, false, Bool-cases, Option, Option-cases, Str, ◌==◌, ok, err,
  Result, Result-cases, arith,
}
use block_rock.Crypto.{Crypto, VerifyingKey, Signature}
use block_rock.Transaction
use block_rock.Transaction.{Transaction}
use block_rock.Ledger.{mint_account}
use block_rock.Ledger.Trust.{Extends}
use block_rock.Blockchain.{public_key, add_public_key}
use block_rock.Blockchain.Consistent.{Consistent}
use block_rock.Blockchain.Reach.{Unclaimed, Extends-insert, add_public_key-Consistent}
use block_rock.Node.{Node, NodeIdentity, submit, rejected, busy, internal}
use block_rock.Node.Submission.{submit_refused}
use block_rock.Rest.Decoding.{
  internal_server_error, ApiFailure, decode_signature, decode_public_key,
}
use block_rock.Rest.{
  SubmitTransaction, RegisterAccount, bound_to_other, bind_account, register_key, register_account,
  queue_and_maybe_seal, submit_signed, submit_transaction,
}

module _ ⦃crypto : Crypto⦄ (disk : Option Str) (node : Node) where
  bind_account-chain :
      (name : Str) (key : VerifyingKey)
      → (bind_account disk node name key).0.chain ≡ add_public_key node.chain name key
  unfolding bind_account
  bind_account-chain name key = elim (Option-cases disk) [
    | inl e ↦ rw (e, bind_account) refl
    | inr (x, e) ↦ rw (e, bind_account) refl
  ]

  not_other-Unclaimed :
      (name : Str) (key : VerifyingKey)
      → bound_to_other (public_key node.chain name) key ≡ false
      → Unclaimed node.chain name key
  unfolding public_key
  not_other-Unclaimed name key h = ground arith

  register_key-chain :
      (name : Str) (key : Result ApiFailure VerifyingKey)
      → ((register_key disk node name key).0.chain ≡ node.chain)
        ⊎ ((k : VerifyingKey) × Unclaimed node.chain name k
            × ((register_key disk node name key).0.chain ≡ add_public_key node.chain name k))
  unfolding register_key
  register_key-chain name (err e) = inl refl
  register_key-chain name (ok k) =
      elim (Bool-cases (bound_to_other (public_key node.chain name) k)) [
        | inl other ↦ rw (other, register_key) (inl refl)
        | inr free ↦
            rw (free, register_key)
              (inr (k, not_other-Unclaimed name k free, bind_account-chain name k))
      ]

  pub register_account-chain :
      (r : RegisterAccount)
      → ((register_account disk node r).0.chain ≡ node.chain)
        ⊎ ((k : VerifyingKey) × Unclaimed node.chain r.name k
            × ((register_account disk node r).0.chain ≡ add_public_key node.chain r.name k))
  unfolding register_account
  register_account-chain r = elim (Bool-cases (r.name == mint_account)) [
    | inl mint ↦ rw (mint, register_account) (inl refl)
    | inr other ↦
        rw (other, register_account) (register_key-chain r.name (decode_public_key r.public_key))
  ]

  -- The first registration of a name wins: whatever is registered, every name keeps the key that it
  -- had, and a consistent chain stays consistent.
  pub register_account-first :
      (r : RegisterAccount)
      → Consistent node.chain
      → Extends node.chain.public_keys (register_account disk node r).0.chain.public_keys
        × Consistent (register_account disk node r).0.chain
  unfolding add_public_key
  register_account-first r v = elim (register_account-chain r) [
    | inl same ↦ rw same ((λ name k e. e), v)
    | inr (k, free, e) ↦ rw e (
      Extends-insert node.chain.public_keys r.name k free,
      add_public_key-Consistent node.chain r.name k free v,
    )
  ]

  queue_and_maybe_seal_refused :
      (now : ℕ) (identity : NodeIdentity) (t : Transaction) (f : ApiFailure)
      → (queue_and_maybe_seal now disk identity node t).1 ≡ err f
      → f.status ≢ internal_server_error
      → (queue_and_maybe_seal now disk identity node t).0 ≡ node
  unfolding queue_and_maybe_seal
  queue_and_maybe_seal_refused now identity t f h refused =
      elim (Result-cases ((submit now disk identity node t).1)) [
        | inl (queued, e) ↦ ground arith
        | inr (rejected m, e) ↦
            rw (e, queue_and_maybe_seal) (submit_refused now disk identity node t m (inl e))
        | inr (busy m, e) ↦
            rw (e, queue_and_maybe_seal) (submit_refused now disk identity node t m (inr e))
        | inr (internal m, e) ↦ ground arith
      ]

  pub submit_signed_refused :
      (now : ℕ) (identity : NodeIdentity) (s : SubmitTransaction)
      (signature : Result ApiFailure Signature) (f : ApiFailure)
      → (submit_signed now disk identity node s signature).1 ≡ err f
      → f.status ≢ internal_server_error
      → (submit_signed now disk identity node s signature).0 ≡ node
  unfolding submit_signed
  submit_signed_refused now identity s (err e) f h refused = refl
  submit_signed_refused now identity s (ok signature) f h refused =
      let t = Transaction.signed s.sender s.receiver s.amount s.nonce signature in
      elim (Result-cases ((queue_and_maybe_seal now disk identity node t).1)) [
        | inl (pending, e) ↦ ground arith
        | inr (g, e) ↦
            let same : g ≡ f = ground arith in
            rw (e, submit_signed)
              (queue_and_maybe_seal_refused now identity t f (rw same at e) refused)
      ]

  -- A submission that fails with any status but an internal error leaves the node as it was.
  pub submit_transaction_refused :
      (now : ℕ) (identity : NodeIdentity) (s : SubmitTransaction) (f : ApiFailure)
      → (submit_transaction now disk identity node s).1 ≡ err f
      → f.status ≢ internal_server_error
      → (submit_transaction now disk identity node s).0 ≡ node
  unfolding submit_transaction
  submit_transaction_refused now identity s f h refused =
      submit_signed_refused now identity s (decode_signature s.signature) f h refused
