-- ===== src/Propagation/Bounds.antt =====
-- Whatever a node drives and hears, no peer has more than its seats of offers under way.
use block_rock.Base.{
  ℕ, zero, suc, ◌-◌, ◌≤◌, ◌≡◌, ◌≢◌, refl, sym, subst, ◌&&◌, false, ◌⊎◌, inl, inr, Option,
  Option-cases, none, some, List, [], ◌∷◌, map, Str, Bytes-discrete, get, member, set_insert,
  length, values, arith,
}
use block_rock.Crypto.{Crypto}
use block_rock.Transaction.{Transaction}
use block_rock.Mempool.{sort}
use block_rock.Ledger.Distinct.{Distinct}
use block_rock.Blockchain.{Blockchain, public_key, genesis_hash}
use block_rock.Gossip.{TransactionAnnouncement, TransactionResponse}
use block_rock.Propagation.{
  PeerId, RequestId, InFlight, TransactionGossip, idle, Swarm, Sent, TransactionEvent, request,
  response, outbound_failure, inbound_failure, response_sent, max_inflight_per_peer, prune,
  requests_to, senders_of, Choice, skip, postpone, offer, choose, send_offer, offer_pending,
  offer_to_peer, offer_to_peers, drive,
}
use block_rock.Propagation.Handling.{
  note_receipt, note_retry, settle_response, settle_failure, forget, handle_event,
}
use block_rock.Propagation.Slots.{
  remove-Thins, retain-Thins, Seats, Seats-Thins, Seats-insert_other, Room, Room-more, Room-insert,
}

-- A choice keeps the equation it was made by.
pub Choice-cases : (c : Choice) → (c ≡ skip) ⊎ (c ≡ postpone) ⊎ ((key : Str) × (c ≡ offer key))
Choice-cases skip = inl refl
Choice-cases postpone = inr (inl refl)
Choice-cases (offer key) = inr (inr (key, refl))

pub choose-offer :
    (now : ℕ) (chain : Blockchain) (p : PeerId) (g : TransactionGossip) (senders : List Str)
    (t : Transaction) {key : Str}
    → choose now chain p g senders t ≡ offer key
    → (member t.sender senders ≡ false) × (public_key chain t.sender ≡ some key)
unfolding choose
choose-offer now chain p g senders t h = ground arith

abbrev pub AllSeats : TransactionGossip → Type 0
AllSeats g = (p : PeerId) → Seats p g.in_flight

module _ (request_id : ℕ → RequestId) where
  Room-send :
      (p : PeerId) (slots : ℕ) (senders : List Str) (a : TransactionAnnouncement)
      (state : TransactionGossip × Swarm)
      → member a.transaction.sender senders ≡ false
      → Room p (suc slots) senders state.0.in_flight
      → Room p slots
          (set_insert a.transaction.sender senders)
          (send_offer request_id p a state).0.in_flight
  unfolding send_offer
  Room-send p slots senders a state new r =
      Room-insert p slots senders (request_id state.1.requests)
        (record { peer = p; id = a.transaction.id; sender = a.transaction.sender })
        state.0.in_flight refl new r

  Seats-send :
      (q p : PeerId) (a : TransactionAnnouncement) (state : TransactionGossip × Swarm)
      → p ≢ q
      → Seats q state.0.in_flight
      → Seats q (send_offer request_id p a state).0.in_flight
  unfolding send_offer
  Seats-send q p a state other s =
      Seats-insert_other q (request_id state.1.requests)
        (record { peer = p; id = a.transaction.id; sender = a.transaction.sender })
        state.0.in_flight other s

module _ (request_id : ℕ → RequestId) (now : ℕ) (chain : Blockchain) (genesis : Str) where
  offer_pending-Room :
      (p : PeerId) (slots : ℕ) (senders : List Str) (ts : List Transaction)
      (state : TransactionGossip × Swarm)
      → Room p slots senders state.0.in_flight
      → Seats p (offer_pending request_id now chain genesis p slots senders ts state).0.in_flight
  unfolding offer_pending
  offer_pending-Room p slots senders [] state r = record {
    few = omega (arith, r.few);
    apart = r.apart;
  }
  offer_pending-Room p zero senders (t ∷ ts) state r = record {
    few = omega (arith, r.few);
    apart = r.apart;
  }
  offer_pending-Room p (suc slots) senders (t ∷ ts) state r =
      elim (Choice-cases (choose now chain p state.0 senders t)) [
        | inl e ↦ rw (e, offer_pending) (offer_pending-Room p (suc slots) senders ts state r)
        | inr (inl e) ↦
            rw (e, offer_pending)
              (offer_pending-Room p (suc slots) (set_insert t.sender senders) ts state
                (Room-more p (suc slots) senders t.sender state.0.in_flight r))
        | inr (inr (key, e)) ↦
            let a : TransactionAnnouncement = record {
              genesis_hash = genesis;
              transaction = t;
              sender_key = key;
            } in
            rw (e, offer_pending)
              (offer_pending-Room p slots (set_insert t.sender senders) ts
                (send_offer request_id p a state)
                (Room-send request_id p slots senders a state
                  (choose-offer now chain p state.0 senders t e).0 r))
      ]

  offer_pending-other :
      (q p : PeerId) (slots : ℕ) (senders : List Str) (ts : List Transaction)
      (state : TransactionGossip × Swarm)
      → p ≢ q
      → Seats q state.0.in_flight
      → Seats q (offer_pending request_id now chain genesis p slots senders ts state).0.in_flight
  unfolding offer_pending
  offer_pending-other q p slots senders [] state other s = s
  offer_pending-other q p zero senders (t ∷ ts) state other s = s
  offer_pending-other q p (suc slots) senders (t ∷ ts) state other s =
      elim (Choice-cases (choose now chain p state.0 senders t)) [
        | inl e ↦
            rw (e, offer_pending) (offer_pending-other q p (suc slots) senders ts state other s)
        | inr (inl e) ↦
            rw (e, offer_pending)
              (offer_pending-other q p (suc slots) (set_insert t.sender senders) ts state other s)
        | inr (inr (key, e)) ↦
            let a : TransactionAnnouncement = record {
              genesis_hash = genesis;
              transaction = t;
              sender_key = key;
            } in
            rw (e, offer_pending)
              (offer_pending-other q p slots (set_insert t.sender senders) ts
                (send_offer request_id p a state) other (Seats-send request_id q p a state other s))
      ]

  offer_to_peer-Seats :
      (q p : PeerId) (pending : List Transaction) (state : TransactionGossip × Swarm)
      → Seats q state.0.in_flight
      → Seats q (offer_to_peer request_id now chain genesis pending p state).0.in_flight
  unfolding offer_to_peer
  offer_to_peer-Seats q p pending state s = elim (Bytes-discrete p q) [
    | yes same ↦
        let s' : Seats p state.0.in_flight = subst (λ x. Seats x state.0.in_flight) (sym same) s in
        subst
          (λ x. Seats x (offer_to_peer request_id now chain genesis pending p state).0.in_flight)
          same
          (offer_pending-Room p (max_inflight_per_peer - length (requests_to p state.0.in_flight))
            (senders_of (requests_to p state.0.in_flight)) pending state
            (record { few = omega (arith, s'.few); apart = s'.apart; noted = λ u h. h }))
    | no other ↦
        offer_pending-other q p (max_inflight_per_peer - length (requests_to p state.0.in_flight))
          (senders_of (requests_to p state.0.in_flight)) pending state other s
  ]

  pub offer_to_peers-Seats :
      (q : PeerId) (peers : List PeerId) (pending : List Transaction)
      (state : TransactionGossip × Swarm)
      → Seats q state.0.in_flight
      → Seats q (offer_to_peers request_id now chain genesis pending peers state).0.in_flight
  unfolding offer_to_peers
  offer_to_peers-Seats q [] pending state s = s
  offer_to_peers-Seats q (p ∷ peers) pending state s =
      offer_to_peers-Seats q peers pending
        (offer_to_peer request_id now chain genesis pending p state)
        (offer_to_peer-Seats q p pending state s)

module _ (request_id : ℕ → RequestId) where
  drive-Seats :
      (now : ℕ) (chain : Blockchain) (peers : List PeerId) (state : TransactionGossip × Swarm)
      → AllSeats state.0
      → AllSeats (drive request_id now chain peers state).0
  unfolding drive prune
  drive-Seats now chain peers state s q =
      let pending = sort (values chain.mempool.pending) in
      let ids = map (λ (t : Transaction). t.id) pending in
      let pruned = prune now ids peers state.0 in
      let kept : Seats q pruned.in_flight =
        Seats-Thins q
          (retain-Thins (λ id (r : InFlight). member r.peer peers && member r.id ids)
            state.0.in_flight)
          (s q) in
      elim (Option-cases (genesis_hash chain)) [
        | inl e ↦ rw (e, drive) kept
        | inr (genesis, e) ↦
            rw (e, drive)
              (offer_to_peers-Seats request_id now chain genesis q peers pending (pruned, state.1)
                kept)
      ]

pub settle_response-in_flight :
    (now : ℕ) (p : PeerId) (r : TransactionResponse) (found : Option InFlight)
    (state : TransactionGossip × Swarm)
    → (settle_response now p r found state).0.in_flight ≡ state.0.in_flight
unfolding settle_response note_receipt note_retry
settle_response-in_flight now p r none state = refl
settle_response-in_flight now p r (some req) state = ground arith

pub settle_failure-in_flight :
    (now : ℕ) (p : PeerId) (found : Option InFlight) (state : TransactionGossip × Swarm)
    → (settle_failure now p found state).0.in_flight ≡ state.0.in_flight
unfolding settle_failure note_retry
settle_failure-in_flight now p none state = refl
settle_failure-in_flight now p (some req) state = refl

module _ ⦃crypto : Crypto⦄ where
  handle_event-Seats :
      (now : ℕ) (event : TransactionEvent) (chain : Blockchain) (state : TransactionGossip × Swarm)
      → AllSeats state.0
      → AllSeats (handle_event now event chain state).1.0
  unfolding handle_event forget
  handle_event-Seats now (request p a) chain state s q = s q
  handle_event-Seats now (response p i r) chain state s q =
      rw (settle_response-in_flight now p r (get i state.0.in_flight) (forget i state))
        (Seats-Thins q (remove-Thins i state.0.in_flight) (s q))
  handle_event-Seats now (outbound_failure p i) chain state s q =
      rw (settle_failure-in_flight now p (get i state.0.in_flight) (forget i state))
        (Seats-Thins q (remove-Thins i state.0.in_flight) (s q))
  handle_event-Seats now (inbound_failure p) chain state s q = s q
  handle_event-Seats now response_sent chain state s q = s q

  -- One call of the two methods, at any time, with any chain and any peers.
  pub data GossipStep (request_id : ℕ → RequestId) (state : TransactionGossip × Swarm)
      (state' : TransactionGossip × Swarm) : Type 0 where
    driven :
        (now : ℕ) (chain : Blockchain) (peers : List PeerId)
        → state' ≡ drive request_id now chain peers state
        → GossipStep request_id state state'
    heard :
        (now : ℕ) (event : TransactionEvent) (chain : Blockchain)
        → state' ≡ (handle_event now event chain state).1
        → GossipStep request_id state state'

  pub data GossipReach (request_id : ℕ → RequestId) (state : TransactionGossip × Swarm)
      : TransactionGossip × Swarm → Type 0 where
    here : GossipReach request_id state state
    next :
        {s t : TransactionGossip × Swarm}
        → GossipReach request_id state s
        → GossipStep request_id s t
        → GossipReach request_id state t

  GossipStep-Seats :
      {request_id : ℕ → RequestId} {s t : TransactionGossip × Swarm}
      → GossipStep request_id s t
      → AllSeats s.0
      → AllSeats t.0
  GossipStep-Seats {request_id} {s} (driven now chain peers e) all =
      rw e (drive-Seats request_id now chain peers s all)
  GossipStep-Seats {request_id} {s} (heard now event chain e) all =
      rw e (handle_event-Seats now event chain s all)

  -- Whatever a node drives and hears from its start on, it has at most 16 offers to a peer under way,
  -- and at most one of each sender.
  pub GossipReach-Seats :
      (request_id : ℕ → RequestId) (requests : ℕ) (sent : List Sent)
      {state : TransactionGossip × Swarm} (p : PeerId)
      → GossipReach request_id (idle, record { requests = requests; sent = sent }) state
      → (length (requests_to p state.0.in_flight) ≤ 16)
        × Distinct (senders_of (requests_to p state.0.in_flight))
  unfolding requests_to
  GossipReach-Seats request_id requests sent p r = let s = all_seats r p in (s.few, s.apart)
    where
      all_seats :
          {t : TransactionGossip × Swarm}
          → GossipReach request_id (idle, record { requests = requests; sent = sent }) t
          → AllSeats t.0
      all_seats here = λ q. record { few = omega arith; apart = tt }
      all_seats (next before step) = GossipStep-Seats step (all_seats before)
