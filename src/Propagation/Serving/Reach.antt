-- ===== src/Propagation/Serving/Reach.antt =====
-- A node never leaves a peer waiting for what it could offer it, in zion-core/src/network/transactions.rs.
use block_rock.Base.{
  remove, ℕ, ◌≡◌, ◌⊎◌, refl, sym, subst, Bool, true, inl, inr, none, some, Option, Option-cases,
  List, [], ◌∷◌, map, Str, Map, get, member, values, length, arith,
}
use block_rock.Transaction.{Transaction}
use block_rock.Mempool.{sort}
use block_rock.Blockchain.{Blockchain, genesis_hash}
use block_rock.Gossip.{TransactionResponse}
use block_rock.Propagation.{
  retain, TransactionEvent, request, response, outbound_failure, inbound_failure, response_sent,
  idle, PeerId, RequestId, InFlight, TransactionGossip, Sent, Swarm, prune, requests_to,
  offer_to_peers, drive,
}
use block_rock.Propagation.Handling.{
  forget, send_to, note_receipt, note_retry, settle_response, settle_failure, handle_event,
}
use block_rock.Propagation.Bounds.{
  driven, heard, GossipReach, here, next, GossipReach-Seats, settle_response-in_flight,
  settle_failure-in_flight,
}
use block_rock.Crypto.{Crypto}
use block_rock.Propagation.Serving.{Unique, Fresh, AllSettled, Served}
use block_rock.Propagation.Serving.Offering.{offer_to_peers-Grown, offer_to_peers-Served}

get-retain :
    (test : Str → InFlight → Bool) (k : Str) (m : Map InFlight)
    → get k m ≡ none
    → get k (retain test m) ≡ none
unfolding get retain
get-retain test k [] h = refl
get-retain test k ((j, r) ∷ m) h = ground (arith, get-retain test k m)

get-remove-none : (i k : Str) (m : Map InFlight) → get k m ≡ none → get k (remove i m) ≡ none
unfolding get remove
get-remove-none i k [] h = refl
get-remove-none i k ((j, r) ∷ m) h = ground (arith, get-remove-none i k m)

settle_response-requests :
    (now : ℕ) (p : PeerId) (r : TransactionResponse) (found : Option InFlight)
    (state : TransactionGossip × Swarm)
    → (settle_response now p r found state).1.requests ≡ state.1.requests
unfolding settle_response note_receipt note_retry send_to
settle_response-requests now p r none state = refl
settle_response-requests now p r (some req) state = ground arith

settle_failure-requests :
    (now : ℕ) (p : PeerId) (found : Option InFlight) (state : TransactionGossip × Swarm)
    → (settle_failure now p found state).1.requests ≡ state.1.requests
unfolding settle_failure note_retry
settle_failure-requests now p none state = refl
settle_failure-requests now p (some req) state = refl

module _ (request_id : ℕ → RequestId) where
  forget-Fresh :
      (i : RequestId) (state : TransactionGossip × Swarm)
      → Fresh request_id state
      → Fresh request_id (forget i state)
  unfolding forget
  forget-Fresh i state f n h = get-remove-none i (request_id n) state.0.in_flight (f n h)

  module _ ⦃crypto : Crypto⦄ where
    handle_event-Fresh :
        (now : ℕ) (event : TransactionEvent) (chain : Blockchain)
        (state : TransactionGossip × Swarm)
        → Fresh request_id state
        → Fresh request_id (handle_event now event chain state).1
    unfolding handle_event send_to
    handle_event-Fresh now (request p a) chain state f n h = f n h
    handle_event-Fresh now (response p i r) chain state f n h =
        let found = get i state.0.in_flight in
        rw (settle_response-in_flight now p r found (forget i state)) (
          forget-Fresh i state f n
            (rw (settle_response-requests now p r found (forget i state)) at h))
    handle_event-Fresh now (outbound_failure p i) chain state f n h =
        let found = get i state.0.in_flight in
        rw (settle_failure-in_flight now p found (forget i state)) (
          forget-Fresh i state f n (rw (settle_failure-requests now p found (forget i state)) at h))
    handle_event-Fresh now (inbound_failure p) chain state f n h = f n h
    handle_event-Fresh now response_sent chain state f n h = f n h

  module _ (unique : Unique request_id) (now : ℕ) (chain : Blockchain) (peers : List PeerId)
      (state : TransactionGossip × Swarm) where
    abbrev pending : List Transaction
    pending = sort (values chain.mempool.pending)

    abbrev pruned : TransactionGossip × Swarm
    pruned = (prune now (map (λ (t : Transaction). t.id) pending) peers state.0, state.1)

    pruned-Fresh : Fresh request_id state → Fresh request_id pruned
    unfolding prune
    pruned-Fresh f n h = get-retain _ (request_id n) state.0.in_flight (f n h)

    drive-Fresh : Fresh request_id state → Fresh request_id (drive request_id now chain peers state)
    unfolding drive
    drive-Fresh f = elim (Option-cases (genesis_hash chain)) [
      | inl e ↦ rw (e, drive) (pruned-Fresh f)
      | inr (genesis, e) ↦
          rw (e, drive)
            (offer_to_peers-Grown request_id unique now chain genesis pending peers pruned
              (pruned-Fresh f)).1
    ]

    drive-step :
        (genesis : Str)
        → genesis_hash chain ≡ some genesis
        → drive request_id now chain peers state
          ≡ offer_to_peers request_id now chain genesis pending peers pruned
    unfolding drive
    drive-step genesis e = rw (e, drive) refl

module _ ⦃crypto : Crypto⦄ (request_id : ℕ → RequestId) (unique : Unique request_id) (requests : ℕ)
    (sent : List Sent) where
  abbrev at_start : TransactionGossip × Swarm
  at_start = (idle, record { requests = requests; sent = sent })

  GossipReach-Fresh :
      {state : TransactionGossip × Swarm}
      → GossipReach request_id at_start state
      → Fresh request_id state
  unfolding get
  GossipReach-Fresh here = λ n h. refl
  GossipReach-Fresh (next {s} before (driven now chain peers e)) =
      rw e (drive-Fresh request_id unique now chain peers s (GossipReach-Fresh before))
  GossipReach-Fresh (next {s} before (heard now event chain e)) =
      rw e (handle_event-Fresh request_id now event chain s (GossipReach-Fresh before))

  -- A node never leaves a peer idle: whatever it did before, when it has driven its gossip, then to each
  -- peer that is connected 16 offers are under way, or no pending transaction is left that the peer could
  -- be offered. Each of them the peer has, or an offer of the same sender is under way to it, or the peer
  -- is to be asked again later about it or about one of the sender that comes before it in the order of
  -- the pool's drain, or its sender has no key. The ids of the requests must be unique, and the chain
  -- have a genesis.
  pub drive-serves :
      {state : TransactionGossip × Swarm} (now : ℕ) (chain : Blockchain) (peers : List PeerId)
      (p : PeerId) {genesis : Str}
      → GossipReach request_id at_start state
      → genesis_hash chain ≡ some genesis
      → member p peers ≡ true
      → let after = (drive request_id now chain peers state).0 in
        (length (requests_to p after.in_flight) ≡ 16)
        ⊎ AllSettled now chain p after [] (sort (values chain.mempool.pending))
  drive-serves {state} now chain peers p {genesis} reached e connected =
      let ts = sort (values chain.mempool.pending) in
      let few =
        (GossipReach-Seats request_id requests sent p
          (next reached (driven now chain peers refl))).0 in
      let f = pruned-Fresh request_id unique now chain peers state (GossipReach-Fresh reached) in
      let served : Served now chain p [] ts (drive request_id now chain peers state).0 =
        subst (λ (x : TransactionGossip × Swarm). Served now chain p [] ts x.0)
          (sym (drive-step request_id unique now chain peers state genesis e))
          (offer_to_peers-Served request_id unique now chain genesis ts peers p
            (pruned request_id unique now chain peers state) connected f) in
      elim served [ inl full ↦ inl (omega (arith, few, full)) | inr all ↦ inr all ]
