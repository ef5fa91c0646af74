-- ===== src/Propagation.antt =====
-- `TransactionGossip` of zion-core/src/network/transactions.rs: which pending transactions a node offers
-- to which peer; what it makes of the answers is in Handling. The swarm of libp2p gives each request its
-- id: the ids are a parameter, the count of requests so far is part of the state, and what is sent is
-- kept, the latest first. The clock counts milliseconds and is read once for each call.
pub mod Handling
pub mod Slots
pub mod Bounds
pub mod InOrder
pub mod Serving
use block_rock.Base.{
  ℕ, zero, suc, ◌+◌, ◌-◌, ◌*◌, Bool, true, false, not, ◌&&◌, ◌||◌, Option, none, some, List, [],
  ◌∷◌, map, Str, Bytes, ◌==◌, leb, ltb, if◌then◌else◌, is_some, Result, ok, err, Map, get,
  contains_key, insert, remove, values, member, set_insert, length,
}
use block_rock.Crypto.{Crypto, VerifyingKey}
use block_rock.Transaction.{Transaction}
use block_rock.ChainError.{ChainError, mempool_full}
use block_rock.Mempool.{Mempool, sort}
use block_rock.Blockchain.{Blockchain, public_key, genesis_hash}
use block_rock.Gossip.{
  TransactionAnnouncement, TransactionResponse, accepted, known, confirmed, busy, rejected,
  apply_transaction,
}

-- `PeerId` and `OutboundRequestId` by their bytes
abbrev pub PeerId : Type 0
PeerId = Bytes

abbrev pub RequestId : Type 0
RequestId = Bytes

-- The constants, in milliseconds.
abbrev pub retry_delay : ℕ
retry_delay = 2 * 1000

abbrev pub receipt_ttl : ℕ
receipt_ttl = 5 * 2 * 1000

abbrev pub max_inflight_per_peer : ℕ
max_inflight_per_peer = 16

pub record InFlight : Type 0 where
  pub peer : PeerId
  pub id : Str
  pub sender : Str

pub record TransactionGossip : Type 0 where
  pub known : Map (Map ℕ)
  pub in_flight : Map InFlight
  pub retry_after : Map (Map ℕ)
  pub chain_sync_after : Map ℕ

-- `TransactionGossip::default()`
abbrev pub idle : TransactionGossip
idle = record { known = []; in_flight = []; retry_after = []; chain_sync_after = [] }

pub data Sent : Type 0 where
  announced : RequestId → PeerId → TransactionAnnouncement → Sent
  asked_chain : PeerId → Sent
  responded : TransactionResponse → Sent

pub record Swarm : Type 0 where
  pub requests : ℕ
  pub sent : List Sent

pub data TransactionEvent : Type 0 where
  request : PeerId → TransactionAnnouncement → TransactionEvent
  response : PeerId → RequestId → TransactionResponse → TransactionEvent
  outbound_failure : PeerId → RequestId → TransactionEvent
  inbound_failure : PeerId → TransactionEvent
  response_sent : TransactionEvent

-- `HashMap::retain`
unfoldable pub retain {ℓ} : {V : Type ℓ} → (Str → V → Bool) → Map V → Map V
retain keep [] = []
retain keep ((k, v) ∷ m) = let rest = retain keep m in if keep k v then (k, v) ∷ rest else rest

-- A `retain` that first retains within each value, and drops what is empty then.
unfoldable pub retain_within : (Str → ℕ → Bool) → List PeerId → Map (Map ℕ) → Map (Map ℕ)
unfolding retain
retain_within keep peers [] = []
retain_within keep peers ((peer, inner) ∷ m) =
    let inner' = retain keep inner in
    let rest = retain_within keep peers m in
    if member peer peers && ltb 0 (length inner') then (peer, inner') ∷ rest else rest

-- The four calls of `retain` in `drive`.
unfoldable pub prune : ℕ → List Str → List PeerId → TransactionGossip → TransactionGossip
unfolding retain_within
prune now ids peers g = record {
  known = retain_within (λ id until. member id ids && ltb now until) peers g.known;
  in_flight = retain (λ id (r : InFlight). member r.peer peers && member r.id ids) g.in_flight;
  retry_after = retain_within (λ id until. member id ids) peers g.retry_after;
  chain_sync_after = retain (λ peer until. member peer peers) g.chain_sync_after;
}

-- `filter(|request| request.peer == *peer)` over the values
unfoldable pub requests_to : PeerId → Map InFlight → List InFlight
requests_to peer [] = []
requests_to peer ((i, r) ∷ m) =
    let rest = requests_to peer m in if r.peer == peer then r ∷ rest else rest

abbrev pub senders_of : List InFlight → List Str
senders_of = map λ r. r.sender

-- `map.get(peer).and_then(|inner| inner.get(id))`
abbrev inner_get : Option (Map ℕ) → Str → Option ℕ
inner_get none id = none
inner_get (some inner) id = get id inner

unfoldable pub get_within : PeerId → Str → Map (Map ℕ) → Option ℕ
get_within peer id m = inner_get (get peer m) id

abbrev inner_or_default : Option (Map ℕ) → Map ℕ
inner_or_default none = []
inner_or_default (some inner) = inner

-- `map.entry(peer).or_default().insert(id, until)`
unfoldable pub insert_within : PeerId → Str → ℕ → Map (Map ℕ) → Map (Map ℕ)
insert_within peer id until m = insert peer (insert id until (inner_or_default (get peer m))) m

abbrev is_after : Option ℕ → ℕ → Bool
is_after none now = false
is_after (some deadline) now = ltb now deadline

-- What the inner loop of `drive` does with a transaction.
pub data Choice : Type 0 where
  skip postpone : Choice
  offer : VerifyingKey → Choice

abbrev offer_with : Option VerifyingKey → Choice
offer_with none = skip
offer_with (some key) = offer key

unfoldable pub choose :
    ℕ → Blockchain → PeerId → TransactionGossip → List Str → Transaction → Choice
unfolding get_within
choose now chain peer g senders t =
    if member t.sender senders || is_some (get_within peer t.id g.known)
    then skip
    else (if is_after (get_within peer t.id g.retry_after) now
        then postpone
        else offer_with (public_key chain t.sender))

module _ (request_id : ℕ → RequestId) where
  -- `send_request`, and the entry of the request.
  unfoldable pub send_offer :
      PeerId → TransactionAnnouncement → TransactionGossip × Swarm → TransactionGossip × Swarm
  send_offer peer a (g, swarm) =
      let i = request_id swarm.requests in
      (
        record g {
          in_flight =
              insert i
                (record { peer = peer; id = a.transaction.id; sender = a.transaction.sender })
                g.in_flight;
        },
        record { requests = suc swarm.requests; sent = announced i peer a ∷ swarm.sent },
      )

  -- The loop over `pending` for one peer.
  unfoldable pub offer_pending :
      ℕ
      → Blockchain
      → Str
      → PeerId
      → ℕ
      → List Str
      → List Transaction
      → TransactionGossip × Swarm
      → TransactionGossip × Swarm
  unfolding choose send_offer
  offer_pending now chain genesis peer slots senders [] state = state
  offer_pending now chain genesis peer zero senders (t ∷ ts) state = state
  offer_pending now chain genesis peer (suc slots) senders (t ∷ ts) state =
      elim (choose now chain peer state.0 senders t) [
        | skip ↦ offer_pending now chain genesis peer (suc slots) senders ts state
        | postpone ↦
            offer_pending now chain genesis peer (suc slots) (set_insert t.sender senders) ts state
        | offer key ↦ offer_pending now chain genesis peer slots (set_insert t.sender senders) ts (
            send_offer peer (record { genesis_hash = genesis; transaction = t; sender_key = key })
              state)
      ]

  unfoldable pub offer_to_peer :
      ℕ
      → Blockchain
      → Str
      → List Transaction
      → PeerId
      → TransactionGossip × Swarm
      → TransactionGossip × Swarm
  unfolding offer_pending
  offer_to_peer now chain genesis pending peer state =
      let requests = requests_to peer state.0.in_flight in
      offer_pending now chain genesis peer (max_inflight_per_peer - length requests)
        (senders_of requests) pending state

  unfoldable pub offer_to_peers :
      ℕ
      → Blockchain
      → Str
      → List Transaction
      → List PeerId
      → TransactionGossip × Swarm
      → TransactionGossip × Swarm
  unfolding offer_to_peer
  offer_to_peers now chain genesis pending [] state = state
  offer_to_peers now chain genesis pending (peer ∷ peers) state =
      offer_to_peers now chain genesis pending peers
        (offer_to_peer now chain genesis pending peer state)

  abbrev offer_if_genesis :
      Option Str
      → ℕ
      → Blockchain
      → List Transaction
      → List PeerId
      → TransactionGossip × Swarm
      → TransactionGossip × Swarm
  offer_if_genesis none now chain pending peers state = state
  offer_if_genesis (some genesis) now chain pending peers state =
      offer_to_peers now chain genesis pending peers state

  unfoldable pub drive :
      ℕ → Blockchain → List PeerId → TransactionGossip × Swarm → TransactionGossip × Swarm
  unfolding prune offer_to_peers
  drive now chain peers (g, swarm) =
      let pending = sort (values chain.mempool.pending) in
      offer_if_genesis (genesis_hash chain) now chain pending peers
        (prune now (map (λ t. t.id) pending) peers g, swarm)
