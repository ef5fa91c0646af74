-- ===== src/Rest/Readings.antt =====
-- The sensor readings of zion-core/src/api/rest.rs. The floating-point numbers of the stream and
-- `parse::<f64>` are parameters. The broadcast channel is the list of what was sent on it, the latest
-- first.
use block_rock.Base.{ℕ, Option, none, some, List, ◌∷◌, Str, Result, ok, err}
use block_rock.Crypto.{Crypto, Signature}
use block_rock.Transaction
use block_rock.Node.{Node, NodeIdentity, Queued}
use block_rock.Rest.{queue_and_maybe_seal}
use block_rock.Rest.Decoding.{ApiFailure, decode_signature}

pub record SensorReading (F64 : Type 0) : Type 0 where
  pub sensor_id : Str
  pub value : F64

pub record CommitReading : Type 0 where
  pub sensor_id : Str
  pub value : Str
  pub nonce : ℕ
  pub signature : Str

-- `tx.send(reading)`, whose error is dropped
unfoldable pub post_sensor :
    {F64 : Type 0} → SensorReading F64 → List (SensorReading F64) → List (SensorReading F64)
post_sensor reading stream = reading ∷ stream

module _ {F64 : Type 0} (parse : Str → Option F64) where
  -- The part of `commit_sensor_reading` behind the commitment.
  unfoldable pub stream_reading :
      CommitReading → Option F64 → List (SensorReading F64) → List (SensorReading F64)
  unfolding post_sensor
  stream_reading reading none stream = stream
  stream_reading reading (some value) stream =
      post_sensor (record { sensor_id = reading.sensor_id; value = value }) stream

  module _ ⦃crypto : Crypto⦄ where
    -- The part behind the decoding.
    unfoldable pub commit_signed :
        ℕ
        → Option Str
        → NodeIdentity
        → Node
        → List (SensorReading F64)
        → CommitReading
        → Result ApiFailure Signature
        → (Node × List (SensorReading F64)) × Result ApiFailure Queued
    unfolding queue_and_maybe_seal stream_reading
    commit_signed now disk identity node stream r (err e) = ((node, stream), err e)
    commit_signed now disk identity node stream r (ok signature) =
        let t =
          Transaction.signed_with_payload r.sensor_id r.sensor_id 0 r.nonce (some r.value)
            signature in
        let (node', result) = queue_and_maybe_seal now disk identity node t in
        elim result [
          | err e ↦ ((node', stream), err e)
          | ok pending ↦ (
            (node', stream_reading r (parse r.value) stream),
            ok (record { id = t.id; pending = pending }),
          )
        ]

    unfoldable pub commit_sensor_reading :
        ℕ
        → Option Str
        → NodeIdentity
        → Node
        → List (SensorReading F64)
        → CommitReading
        → (Node × List (SensorReading F64)) × Result ApiFailure Queued
    unfolding commit_signed decode_signature
    commit_sensor_reading now disk identity node stream r =
        commit_signed now disk identity node stream r (decode_signature r.signature)
