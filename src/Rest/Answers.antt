-- ===== src/Rest/Answers.antt =====
-- What zion-core/src/api/rest.rs answers to a payment that it does not take, and when it asks the client
-- to try again.
use block_rock.Base.{
  ℕ, ◌≡◌, ◌≢◌, ◌⊎◌, inl, inr, refl, sym, ap, ◌∙◌, subst, none, some, Option, Str, ◌==◌, Bool-cases,
  Result, Result-cases, ok, err, arith,
}
use block_rock.ChainError.{ChainError, mempool_full}
use block_rock.ChainError.Display.{error_text}
use block_rock.Crypto.{Crypto, Signature}
use block_rock.Ledger.{mint_account}
use block_rock.Message.{Message, signature_length, signature_not_hex, chain_error, message_text}
use block_rock.Text.{trim}
use block_rock.Text.Decimal.{decimal}
use block_rock.Transaction
use block_rock.Transaction.{Transaction}
use block_rock.Blockchain.{queue_transaction, pending_count}
use block_rock.Mempool.{max_mempool_bytes}
use block_rock.Blockchain.Room.{
  NoRoom, Payable, queue_transaction-NoRoom, queue_transaction-Payable,
}
use block_rock.Node.{
  Node, NodeIdentity, Queued, SubmitError, rejected, busy, internal, submit_error, submit,
}
use block_rock.Node.Submission.{seal_if_worth-IsInternal}
use block_rock.Rest.{
  SubmitTransaction, api_failure, queue_and_maybe_seal, submit_transaction, submit_signed,
}
use block_rock.Rest.Accounts.{submit_signed_refused}
use block_rock.Rest.Decoding.{
  bad_request, too_many_requests, internal_server_error, ApiFailure, refused, full, failure,
  respond_to, block_time, decode_signature,
}

submit_error-busy :
    (e : ChainError) (m : Message)
    → submit_error e ≡ busy m
    → (queued : ℕ) × (max : ℕ) × (e ≡ mempool_full queued max) × (m ≡ chain_error e)
submit_error-busy (mempool_full queued max) m h = (queued, max, refl, ground (arith, h))
submit_error-busy e m h = cc

module _ ⦃crypto : Crypto⦄ (now : ℕ) (disk : Option Str) (identity : NodeIdentity)
    (node : Node) where
  -- The transaction could be queued, but the pool has no room for it.
  abbrev pub Crowded : Transaction → Type 0
  Crowded t = Payable node.chain t × NoRoom node.chain t

  -- What is said of the full pool.
  abbrev full_pool : ChainError
  full_pool = mempool_full node.chain.mempool.bytes max_mempool_bytes

  submit-Crowded :
      (t : Transaction)
      → Crowded t
      → (submit now disk identity node t).1 ≡ err (busy (chain_error full_pool))
  unfolding submit
  submit-Crowded t (p, no_room) =
      rw (p.other, queue_transaction-NoRoom node.chain t p no_room, submit) refl

  submit-busy :
      (t : Transaction) (m : Message)
      → (submit now disk identity node t).1 ≡ err (busy m)
      → Crowded t × (m ≡ chain_error full_pool)
  unfolding submit
  submit-busy t m h = elim (Bool-cases (t.sender == mint_account)) [
    | inl mint ↦ ground (arith, mint, h)
    | inr other ↦ elim (Result-cases (queue_transaction node.chain t)) [
      | inl (r, g) ↦
          elim ((seal_if_worth-IsInternal now disk identity (record node { chain = r.0 })
              (record { id = t.id; pending = pending_count r.0 }) m).1
            (rw (other, g, submit) at h)) [ ]
      | inr (x, g) ↦
          let (queued, max, k, same) = submit_error-busy x m (ground (arith, other, g, h)) in
          let (p, no_room, bytes, limit) =
            queue_transaction-Payable node.chain t queued max (g ∙ ap err k) in
          ((p, no_room), same ∙ ap chain_error (k ∙ rw (bytes, limit) refl))
    ]
  ]

  -- The transaction of a payment.
  abbrev pub paid : SubmitTransaction → Signature → Transaction
  paid s signature = Transaction.signed s.sender s.receiver s.amount s.nonce signature

  -- The pool is not what a payment lacks.
  abbrev pub Spare : SubmitTransaction → Type 0
  Spare s =
      (signature : Signature)
      → decode_signature s.signature ≡ ok signature
      → ¬ Crowded (paid s signature)

  -- What the client gets for a payment, and the node afterwards.
  pub data Answered (s : SubmitTransaction) (result : Result ApiFailure Queued) (node' : Node)
      : Type 0 where
    taken : (q : Queued) → result ≡ ok q → Spare s → Answered s result node'
    try_again :
        (f : ApiFailure) (signature : Signature)
        → result ≡ err f
        → decode_signature s.signature ≡ ok signature
        → Crowded (paid s signature)
        → respond_to f ≡ record {
          status = too_many_requests;
          error = error_text full_pool;
          retry_after = some (decimal block_time);
        }
        → node' ≡ node
        → Answered s result node'
    give_up :
        (f : ApiFailure)
        → result ≡ err f
        → (respond_to f).retry_after ≡ none
        → ((respond_to f).status ≡ bad_request) × (node' ≡ node)
          ⊎ ((respond_to f).status ≡ internal_server_error)
        → Spare s
        → Answered s result node'

  decode_signature-refused :
      (text : Str) {f : ApiFailure}
      → decode_signature text ≡ err f
      → (m : Message) × (f ≡ refused m)
  unfolding decode_signature
  decode_signature-refused text {f} h = elim (Result-cases (crypto.hex_decode (trim text))) [
    | inl (bytes, e) ↦ (signature_length, ground (arith, e, h))
    | inr (x, e) ↦ (signature_not_hex x, ground (arith, e, h))
  ]

  submit_signed-unread :
      (s : SubmitTransaction) (g : ApiFailure)
      → submit_signed now disk identity node s (err g) ≡ (node, err g)
  unfolding submit_signed
  submit_signed-unread s g = refl

  submit_signed-err :
      (s : SubmitTransaction) (signature : Signature) {x : SubmitError}
      → (submit now disk identity node (paid s signature)).1 ≡ err x
      → (submit_signed now disk identity node s (ok signature)).1 ≡ err (api_failure x)
  unfolding submit_signed queue_and_maybe_seal
  submit_signed-err s signature {x} e = ground (arith, e)

  submit_signed-ok :
      (s : SubmitTransaction) (signature : Signature) {q : Queued}
      → (submit now disk identity node (paid s signature)).1 ≡ ok q
      → (r : Queued) × ((submit_signed now disk identity node s (ok signature)).1 ≡ ok r)
  unfolding submit_signed queue_and_maybe_seal
  submit_signed-ok s signature {q} e =
      (record { id = (paid s signature).id; pending = q.pending }, ground (arith, e))

  Spare-signature :
      (s : SubmitTransaction) (signature : Signature)
      → decode_signature s.signature ≡ ok signature
      → ¬ Crowded (paid s signature)
      → Spare s
  Spare-signature s signature e spare other k =
      let same : signature ≡ other = ground (arith, e, k) in
      subst (λ g. ¬ Crowded (paid s g)) same spare

  -- A submission with another outcome than a full pool was not refused for one.
  not_Crowded :
      (t : Transaction) {r : Result SubmitError Queued}
      → (submit now disk identity node t).1 ≡ r
      → r ≢ err (busy (chain_error full_pool))
      → ¬ Crowded t
  not_Crowded t e other crowded = other (sym e ∙ submit-Crowded t crowded)

  submit_signed-kept :
      (s : SubmitTransaction) (signature : Signature) {f : ApiFailure}
      → (submit_signed now disk identity node s (ok signature)).1 ≡ err f
      → f.status ≢ internal_server_error
      → (submit_signed now disk identity node s (ok signature)).0 ≡ node
  submit_signed-kept s signature {f} h =
      submit_signed_refused disk node now identity s (ok signature) f h

  submit_signed-Answered :
      (s : SubmitTransaction) (found : Result ApiFailure Signature)
      → decode_signature s.signature ≡ found
      → let (node', result) = submit_signed now disk identity node s found in
        Answered s result node'
  unfolding respond_to message_text
  submit_signed-Answered s (err g) e =
      let (m, same) = decode_signature-refused s.signature {f = g} e in
      rw (submit_signed-unread s g) (
        give_up g refl (rw same refl) (rw same (inl (refl, refl)))
          (λ signature k. ground (arith, e, k)))
  submit_signed-Answered s (ok signature) e =
      let t = paid s signature in
      elim (Result-cases (submit now disk identity node t).1) [
        | inl (q, k) ↦
            let (r, h) = submit_signed-ok s signature {q = q} k in
            taken r h (Spare-signature s signature e (not_Crowded t k (λ i. cc)))
        | inr (rejected m, k) ↦
            let h = submit_signed-err s signature {x = rejected m} k in
            give_up (refused m) h refl
              (inl (refl, submit_signed-kept s signature {f = refused m} h (λ i. cc)))
              (Spare-signature s signature e (not_Crowded t k (λ i. cc)))
        | inr (busy m, k) ↦
            let h = submit_signed-err s signature {x = busy m} k in
            let (crowded, same) = submit-busy t m k in
            try_again (full m) signature h e crowded (rw same refl)
              (submit_signed-kept s signature {f = full m} h (λ i. cc))
        | inr (internal m, k) ↦
            let h = submit_signed-err s signature {x = internal m} k in
            give_up (failure internal_server_error m) h refl (inr refl)
              (Spare-signature s signature e (not_Crowded t k (λ i. cc)))
      ]

  -- Whatever is submitted and whatever fails: a payment is answered with 429, with the text of the full
  -- pool and with the time after which to try again exactly if its signature can be read, it passes all
  -- other checks of queueing, and the pool has no room for it. Any other payment is taken, or answered
  -- with 400 or 500 and without that time. A payment that is answered with 429 or 400 leaves the node as
  -- it was.
  pub submit_transaction-Answered :
      (s : SubmitTransaction)
      → let (node', result) = submit_transaction now disk identity node s in Answered s result node'
  unfolding submit_transaction
  submit_transaction-Answered s = submit_signed-Answered s (decode_signature s.signature) refl
