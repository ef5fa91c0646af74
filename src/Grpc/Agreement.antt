-- ===== src/Grpc/Agreement.antt =====
-- The two interfaces of zion-core/src/api/rest.rs and zion-core/src/api/grpc.rs are two doors to the
-- same node: a request has the same effect and the corresponding answer at both.
use block_rock.Base.{
  ℕ, ◌≡◌, refl, sym, ap, Bool-cases, inl, inr, Option, none, some, List, ◌∷◌, Str, ◌==◌, Result,
  Result-cases, ok, err, map_err, arith,
}
use block_rock.Crypto.{Crypto, Signature}
use block_rock.Transaction
use block_rock.Transaction.{Transaction}
use block_rock.Ledger.{mint_account}
use block_rock.Blockchain.{Blockchain, queue_transaction, pending_count}
use block_rock.Node.{
  Node, NodeIdentity, Queued, SubmitError, rejected, busy, internal, seal_if_worth, submit,
}
use block_rock.Rest
use block_rock.Message.{Message}
use block_rock.Text.{trim}
use block_rock.Rest.Decoding.{Status, ApiFailure, refused}
use block_rock.Rest.{api_failure, SubmitTransaction, AccountState, queue_and_maybe_seal}
use block_rock.Rest.Readings.{
  SensorReading, CommitReading, stream_reading, post_sensor, commit_signed, commit_sensor_reading,
}
use block_rock.Grpc
use block_rock.Grpc.{
  Code, not_found, invalid_argument, resource_exhausted, internal_error, SubmitTransactionRequest,
  AccountResponse, status_of,
}

-- The status code that corresponds to an HTTP status.
abbrev pub code_of_status : Status → Code
code_of_status Status.bad_request = invalid_argument
code_of_status Status.not_found = not_found
code_of_status Status.conflict = invalid_argument
code_of_status Status.too_many_requests = resource_exhausted
code_of_status Status.internal_server_error = internal_error

-- The gRPC failure that corresponds to an HTTP failure: it says the same.
abbrev pub as_status : ApiFailure → Grpc.Status
as_status f = Grpc.status (code_of_status f.status) f.body

-- The gRPC answer that corresponds to an HTTP answer.
abbrev pub as_grpc : {A B : Type 0} → (A → B) → Result ApiFailure A → Result Grpc.Status B
as_grpc f (ok a) = ok (f a)
as_grpc f (err e) = err (as_status e)

-- The same request at the other interface.
abbrev pub as_request : SubmitTransaction → SubmitTransactionRequest
as_request s = record {
  sender = s.sender;
  receiver = s.receiver;
  amount = s.amount;
  nonce = s.nonce;
  payload = none;
  signature = s.signature;
}

-- A reading is a transfer of nothing from the sensor to itself.
abbrev pub reading_request : CommitReading → SubmitTransactionRequest
reading_request r = record {
  sender = r.sensor_id;
  receiver = r.sensor_id;
  amount = 0;
  nonce = r.nonce;
  payload = some r.value;
  signature = r.signature;
}

abbrev pub account_message : AccountState → AccountResponse
account_message a = record {
  name = a.name;
  balance = a.balance;
  next_nonce = a.next_nonce;
  public_key = a.public_key;
}

-- What is on the stream after an answer, where the reading reads as a number or not: a committed number
-- is in front of what was there, under the name of its sensor, and nothing else is new.
abbrev pub streamed :
    {F64 : Type 0}
    → List (SensorReading F64)
    → CommitReading
    → Option F64
    → Result ApiFailure Queued
    → List (SensorReading F64)
streamed stream r (some number) (ok q) = record { sensor_id = r.sensor_id; value = number } ∷ stream
streamed stream r none (ok q) = stream
streamed stream r number (err e) = stream

as_status-api_failure : (e : SubmitError) → as_status (api_failure e) ≡ status_of e
as_status-api_failure (rejected m) = refl
as_status-api_failure (busy m) = refl
as_status-api_failure (internal m) = refl

-- Both interfaces read a signature alike that has no white space around it, and refuse it for the same
-- reason.
decode_signature-agree :
    ⦃crypto : Crypto⦄ (text : Str)
    → trim text ≡ text
    → Rest.Decoding.decode_signature text ≡ map_err refused (Grpc.decode_signature text)
unfolding Rest.Decoding.decode_signature Grpc.decode_signature
decode_signature-agree text h = rw h (ground arith)

module _ ⦃crypto : Crypto⦄ (now : ℕ) (disk : Option Str) (identity : NodeIdentity)
    (node : Node) where
  -- What is answered for a transaction that is queued names that transaction.
  seal_if_worth-id :
      (node' : Node) (queued : Queued) {q : Queued}
      → (seal_if_worth now disk identity node' queued).1 ≡ ok q
      → q.id ≡ queued.id
  unfolding seal_if_worth
  seal_if_worth-id node' queued {q} h = ground arith

  abbrev renamed : Queued → Str → Queued
  renamed q id = record { id = id; pending = q.pending }

  named : (q : Queued) {id : Str} → q.id ≡ id → q ≡ renamed q id
  named q e = ap (renamed q) e

  submit-id :
      (t : Transaction) {q : Queued} → (submit now disk identity node t).1 ≡ ok q → q.id ≡ t.id
  unfolding submit
  submit-id t {q} h = elim (Bool-cases (t.sender == mint_account)) [
    | inl mint ↦ ground arith
    | inr other ↦ elim (Result-cases (queue_transaction node.chain t)) [
      | inl (r, e) ↦ ground (
        arith,
        seal_if_worth-id (record node { chain = r.0 })
            (record { id = t.id; pending = pending_count r.0 }) {q = q},
      )
      | inr (x, e) ↦ ground arith
    ]
  ]

  queue_and_maybe_seal-ok :
      (t : Transaction) {q : Queued}
      → (submit now disk identity node t).1 ≡ ok q
      → queue_and_maybe_seal now disk identity node t
        ≡ ((submit now disk identity node t).0, ok q.pending)
  unfolding queue_and_maybe_seal
  queue_and_maybe_seal-ok t e = rw (e, queue_and_maybe_seal) refl

  queue_and_maybe_seal-err :
      (t : Transaction) {x : SubmitError}
      → (submit now disk identity node t).1 ≡ err x
      → queue_and_maybe_seal now disk identity node t
        ≡ ((submit now disk identity node t).0, err (api_failure x))
  unfolding queue_and_maybe_seal
  queue_and_maybe_seal-err t e = rw (e, queue_and_maybe_seal) refl

  submit_signed-agree :
      (s : SubmitTransaction) (found : Result Message Signature)
      → Grpc.submit_signed now disk identity node (as_request s) found ≡ (
        (Rest.submit_signed now disk identity node s (map_err refused found)).0,
        as_grpc (λ q. q) (Rest.submit_signed now disk identity node s (map_err refused found)).1,
      )
  unfolding Grpc.submit_signed Rest.submit_signed Transaction.signed
  submit_signed-agree s (err e) = refl
  submit_signed-agree s (ok signature) =
      let t = Transaction.signed_with_payload s.sender s.receiver s.amount s.nonce none signature in
      elim (Result-cases (submit now disk identity node t).1) [
        | inl (q, e) ↦
            rw
              (
                queue_and_maybe_seal-ok t e,
                e,
                Grpc.submit_signed,
                Rest.submit_signed,
                Transaction.signed,
              )
              (rw (queue_and_maybe_seal-ok t e)
                (ap (λ x. ((submit now disk identity node t).0, ok x)) (named q (submit-id t e))))
        | inr (x, e) ↦
            rw
              (
                queue_and_maybe_seal-err t e,
                e,
                Grpc.submit_signed,
                Rest.submit_signed,
                Transaction.signed,
              )
              (rw (queue_and_maybe_seal-err t e) (
                ap (λ c. ((submit now disk identity node t).0, err c))
                  (sym (as_status-api_failure x))))
      ]

  -- A payment that is submitted by REST has the effect that it has by gRPC, on the chain, on the disk
  -- and on what is announced, and the answers correspond and say the same, also where it is refused or
  -- the disk fails. The text of the signature must have no white space around it.
  pub submit_transaction-agree :
      (s : SubmitTransaction)
      → trim s.signature ≡ s.signature
      → Grpc.submit_transaction now disk identity node (as_request s) ≡ (
        (Rest.submit_transaction now disk identity node s).0,
        as_grpc (λ q. q) (Rest.submit_transaction now disk identity node s).1,
      )
  unfolding Grpc.submit_transaction Rest.submit_transaction
  submit_transaction-agree s h =
      rw (decode_signature-agree s.signature h)
        (submit_signed-agree s (Grpc.decode_signature s.signature))

  module _ {F64 : Type 0} (parse : Str → Option F64) (stream : List (SensorReading F64)) where
    streamed_lem :
        (r : CommitReading) (number : Option F64) (q : Queued)
        → stream_reading parse r number stream ≡ streamed stream r number (ok q)
    unfolding stream_reading post_sensor
    streamed_lem r none q = refl
    streamed_lem r (some number) q = refl

    streamed_err :
        (r : CommitReading) (number : Option F64) (e : ApiFailure)
        → stream ≡ streamed stream r number (err e)
    streamed_err r none e = refl
    streamed_err r (some number) e = refl

    commit_signed-agree :
        (r : CommitReading) (found : Result Message Signature)
        → (Grpc.submit_signed now disk identity node (reading_request r) found ≡ (
          (commit_signed parse now disk identity node stream r (map_err refused found)).0.0,
          as_grpc
              (λ q. q)
              (commit_signed parse now disk identity node stream r (map_err refused found)).1,
        ))
          × ((commit_signed parse now disk identity node stream r (map_err refused found)).0.1
              ≡ streamed stream r
                  (parse r.value)
                  (commit_signed parse now disk identity node stream r (map_err refused found)).1)
    unfolding Grpc.submit_signed commit_signed
    commit_signed-agree r (err e) = (refl, streamed_err r (parse r.value) (refused e))
    commit_signed-agree r (ok signature) =
        let t =
          Transaction.signed_with_payload r.sensor_id r.sensor_id 0 r.nonce (some r.value)
            signature in
        elim (Result-cases (submit now disk identity node t).1) [
          | inl (q, e) ↦
              rw (queue_and_maybe_seal-ok t e, e, Grpc.submit_signed, commit_signed)
                (rw (queue_and_maybe_seal-ok t e) (
                  ap (λ x. ((submit now disk identity node t).0, ok x)) (named q (submit-id t e)),
                  streamed_lem r (parse r.value) (renamed q t.id),
                ))
          | inr (x, e) ↦
              rw (queue_and_maybe_seal-err t e, e, Grpc.submit_signed, commit_signed)
                (rw (queue_and_maybe_seal-err t e) (
                  ap (λ c. ((submit now disk identity node t).0, err c))
                      (sym (as_status-api_failure x)),
                  streamed_err r (parse r.value) (api_failure x),
                ))
        ]

    -- Committing a sensor's reading has the effect and the answer that its transfer of nothing to itself
    -- with the reading as payload has by gRPC; the reading is on the stream afterwards exactly if it was
    -- committed and is a number, and nothing else is added. The text of the signature must have no white
    -- space around it.
    pub commit_sensor_reading-agree :
        (r : CommitReading)
        → trim r.signature ≡ r.signature
        → (Grpc.submit_transaction now disk identity node (reading_request r) ≡ (
          (commit_sensor_reading parse now disk identity node stream r).0.0,
          as_grpc (λ q. q) (commit_sensor_reading parse now disk identity node stream r).1,
        ))
          × ((commit_sensor_reading parse now disk identity node stream r).0.1
              ≡ streamed stream r
                  (parse r.value)
                  (commit_sensor_reading parse now disk identity node stream r).1)
    unfolding Grpc.submit_transaction commit_sensor_reading
    commit_sensor_reading-agree r h =
        rw (decode_signature-agree r.signature h)
          (commit_signed-agree r (Grpc.decode_signature r.signature))

-- The two interfaces answer alike about an account, known or not, and with what the chain holds.
pub get_account-agree :
    ⦃crypto : Crypto⦄ (chain : Blockchain) (name : Str)
    → Grpc.get_account chain name ≡ as_grpc account_message (Rest.get_account chain name)
unfolding Grpc.get_account Rest.get_account Rest.account_state
get_account-agree chain name = ground arith
