-- ===== src/Propagation/Handling.antt =====
-- `TransactionGossip::handle_event` of zion-core/src/network/transactions.rs: what a node answers to a
-- transaction that it is offered, and what it makes of the answers to its own offers.
use block_rock.Base.{
  ℕ, ◌+◌, Bool, true, false, not, ◌&&◌, Option, none, some, ◌∷◌, Str, ◌==◌, leb, if◌then◌else◌,
  Result, ok, err, get, insert, remove,
}
use block_rock.Crypto.{Crypto}
use block_rock.ChainError.{ChainError, mempool_full}
use block_rock.Blockchain.{Blockchain}
use block_rock.Gossip.{TransactionResponse, confirmed, busy, rejected, apply_transaction}
use block_rock.Propagation.{
  asked_chain, responded, InFlight, PeerId, RequestId, Sent, Swarm, TransactionEvent,
  TransactionGossip, inbound_failure, insert_within, outbound_failure, receipt_ttl, request,
  response, response_sent, retry_delay,
}

abbrev pub response_to : Result ChainError TransactionResponse → TransactionResponse
response_to (ok r) = r
response_to (err (mempool_full queued max)) = busy
response_to (err e) = rejected

-- `matches!(response, Accepted | Known | Confirmed)`
abbrev pub is_receipt : TransactionResponse → Bool
is_receipt busy = false
is_receipt rejected = false
is_receipt _ = true

abbrev pub is_confirmed : TransactionResponse → Bool
is_confirmed confirmed = true
is_confirmed _ = false

-- `get(&peer).is_none_or(|until| *until <= now)`
abbrev is_due : Option ℕ → ℕ → Bool
is_due none now = true
is_due (some until) now = leb until now

unfoldable pub send_to : Sent → Swarm → Swarm
send_to message swarm = record swarm { sent = message ∷ swarm.sent }

-- A peer has the transaction.
unfoldable pub note_receipt :
    ℕ → PeerId → Str → TransactionResponse → TransactionGossip × Swarm → TransactionGossip × Swarm
unfolding insert_within send_to
note_receipt now peer id r (g, swarm) =
    let g' : TransactionGossip = record g {
      known = insert_within peer id (now + receipt_ttl) g.known;
    } in
    if is_confirmed r && is_due (get peer g.chain_sync_after) now
    then (
      record g' { chain_sync_after = insert peer (now + receipt_ttl) g.chain_sync_after },
      send_to (asked_chain peer) swarm,
    )
    else (g', swarm)

unfoldable pub note_retry : ℕ → PeerId → Str → TransactionGossip × Swarm → TransactionGossip × Swarm
unfolding insert_within
note_retry now peer id (g, swarm) =
    (record g { retry_after = insert_within peer id (now + retry_delay) g.retry_after }, swarm)

-- What is done with the request that an answer belongs to, after it was removed.
unfoldable pub settle_response :
    ℕ
    → PeerId
    → TransactionResponse
    → Option InFlight
    → TransactionGossip × Swarm
    → TransactionGossip × Swarm
unfolding note_receipt note_retry
settle_response now peer r none state = state
settle_response now peer r (some req) state =
    if not (req.peer == peer)
    then state
    else (if is_receipt r
        then note_receipt now peer req.id r state
        else note_retry now peer req.id state)

unfoldable pub settle_failure :
    ℕ → PeerId → Option InFlight → TransactionGossip × Swarm → TransactionGossip × Swarm
unfolding note_retry
settle_failure now peer none state = state
settle_failure now peer (some req) state = note_retry now peer req.id state

-- `self.in_flight.remove(&request_id)`
unfoldable pub forget : RequestId → TransactionGossip × Swarm → TransactionGossip × Swarm
forget i (g, swarm) = (record g { in_flight = remove i g.in_flight }, swarm)

module _ ⦃crypto : Crypto⦄ where
  unfoldable pub handle_event :
      ℕ
      → TransactionEvent
      → Blockchain
      → TransactionGossip × Swarm
      → Blockchain × (TransactionGossip × Swarm)
  unfolding settle_response settle_failure forget send_to
  handle_event now (request peer a) chain (g, swarm) =
      let (chain', result) = apply_transaction chain a in
      (chain', (g, send_to (responded (response_to result)) swarm))
  handle_event now (response peer i r) chain state =
      (chain, settle_response now peer r (get i state.0.in_flight) (forget i state))
  handle_event now (outbound_failure peer i) chain state =
      (chain, settle_failure now peer (get i state.0.in_flight) (forget i state))
  handle_event now (inbound_failure peer) chain state = (chain, state)
  handle_event now response_sent chain state = (chain, state)
