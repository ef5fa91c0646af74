-- ===== src/Propagation/InOrder.antt =====
-- In which order a peer is offered the transactions of a sender.
use mathlib.Core.List.{append_assoc}
use block_rock.Base.{
  ◌-◌, ==_refl, subst, ℕ, zero, suc, ◌≡◌, ◌⊎◌, refl, sym, ap, ◌∙◌, Bool, true, false, ◌||◌, inl,
  inr, none, some, Option-cases, List, [], ◌∷◌, ◌++◌, map, Str, ◌==◌, is_some, All, All-append, Map,
  member, set_insert, member-set_insert, values, length, arith,
}
use block_rock.Transaction.{Transaction}
use block_rock.Mempool.{sort}
use block_rock.Blockchain.{Blockchain, public_key, genesis_hash}
use block_rock.Gossip.{TransactionAnnouncement}
use block_rock.Propagation.{
  PeerId, RequestId, TransactionGossip, Sent, announced, asked_chain, responded, Swarm,
  max_inflight_per_peer, prune, requests_to, senders_of, get_within, skip, choose, send_offer,
  offer_pending, offer_to_peer, offer_to_peers, drive,
}
use block_rock.Propagation.Bounds.{Choice-cases, choose-offer}

-- The peer has told that it has the transaction.
abbrev pub Has : Map (Map ℕ) → PeerId → Transaction → Type 0
Has known p u = is_some (get_within p u.id known) ≡ true

-- An offer of one of the pending transactions, of whose sender the peer has all that come before it.
abbrev pub InOrder : List Transaction → Map (Map ℕ) → Sent → Type 0
InOrder pending known (announced i p a) =
    (before : List Transaction) × (after : List Transaction) × (pending
      ≡ before ++ (a.transaction ∷ after))
    × All (λ (u : Transaction). u.sender ≡ a.transaction.sender → Has known p u) before
InOrder pending known (asked_chain p) = Unit
InOrder pending known (responded r) = Unit

or_true : (b : Bool) → b || true ≡ true
or_true true = refl
or_true false = refl

-- Why a transaction that was passed over cannot hold up a later one of its sender that is offered.
abbrev Passed : Blockchain → Map (Map ℕ) → PeerId → List Str → Transaction → Type 0
Passed chain known p senders u =
    (member u.sender senders ≡ true) ⊎ Has known p u ⊎ (public_key chain u.sender ≡ none)

choose-skip :
    (now : ℕ) (chain : Blockchain) (p : PeerId) (g : TransactionGossip) (senders : List Str)
    (t : Transaction)
    → choose now chain p g senders t ≡ skip
    → Passed chain g.known p senders t
unfolding choose
choose-skip now chain p g senders t h = ground arith

Passed-more :
    (chain : Blockchain) (known : Map (Map ℕ)) (p : PeerId) (senders : List Str) (s : Str)
    (us : List Transaction)
    → All (Passed chain known p senders) us
    → All (Passed chain known p (set_insert s senders)) us
Passed-more chain known p senders s [] h = tt
Passed-more chain known p senders s (u ∷ us) h = (
  elim h.0 [
    | inl e ↦ inl (rw (member-set_insert u.sender s senders, e) (or_true (s == u.sender)))
    | inr k ↦ inr k
  ],
  Passed-more chain known p senders s us h.1,
)

Passed-Has :
    (chain : Blockchain) (known : Map (Map ℕ)) (p : PeerId) (senders : List Str) (t : Transaction)
    {key : Str} (us : List Transaction)
    → member t.sender senders ≡ false
    → public_key chain t.sender ≡ some key
    → All (Passed chain known p senders) us
    → All (λ (u : Transaction). u.sender ≡ t.sender → Has known p u) us
Passed-Has chain known p senders t [] fresh k h = tt
Passed-Has chain known p senders t (u ∷ us) fresh k h = (
  λ e. elim h.0 [ inl m ↦ cc | inr (inl has) ↦ has | inr (inr n) ↦ cc ],
  Passed-Has chain known p senders t us fresh k h.1,
)

set_insert-member : (s : Str) (senders : List Str) → member s (set_insert s senders) ≡ true
set_insert-member s senders = rw (member-set_insert s s senders, ==_refl s) refl

-- What was sent behind `sent`, and that it is in order.
record Offers (pending : List Transaction) (known : Map (Map ℕ)) (sent : List Sent)
    (state : TransactionGossip × Swarm) : Type 0 where
  new : List Sent
  added : state.1.sent ≡ new ++ sent
  ordered : All (InOrder pending known) new
  same : state.0.known ≡ known

no_Offers :
    (pending : List Transaction) (state : TransactionGossip × Swarm)
    → Offers pending state.0.known state.1.sent state
no_Offers pending state = record { new = []; added = refl; ordered = tt; same = refl }

Offers-trans :
    {pending : List Transaction} {known : Map (Map ℕ)} {sent : List Sent}
    {s t : TransactionGossip × Swarm}
    → Offers pending known sent s
    → Offers pending s.0.known s.1.sent t
    → Offers pending known sent t
Offers-trans {pending} {known} {sent} {s} {t} a b = record {
  new = b.new ++ a.new;
  added = b.added ∙ ap (λ x. b.new ++ x) a.added ∙ sym (append_assoc b.new a.new sent);
  ordered =
      All-append (InOrder pending known) b.new a.new
        (subst (λ k. All (InOrder pending k) b.new) a.same b.ordered) a.ordered;
  same = b.same ∙ a.same;
}

module _ (request_id : ℕ → RequestId) (now : ℕ) (chain : Blockchain) (genesis : Str)
    (pending : List Transaction) where
  send_offer-Offers :
      (p : PeerId) (a : TransactionAnnouncement) (state : TransactionGossip × Swarm)
      (before after : List Transaction)
      → pending ≡ before ++ (a.transaction ∷ after)
      → All (λ (u : Transaction). u.sender ≡ a.transaction.sender → Has state.0.known p u) before
      → Offers pending state.0.known state.1.sent (send_offer request_id p a state)
  unfolding send_offer
  send_offer-Offers p a state before after e h = record {
    new = announced (request_id state.1.requests) p a ∷ [];
    added = refl;
    ordered = ((before, after, e, h), tt);
    same = refl;
  }

  -- A request that is sent changes nothing of what the peers have.
  sent_on :
      (p : PeerId) (a : TransactionAnnouncement) (state : TransactionGossip × Swarm)
      (senders : List Str) (us : List Transaction)
      → All (Passed chain state.0.known p senders) us
      → All (Passed chain (send_offer request_id p a state).0.known p senders) us
  unfolding send_offer
  sent_on p a state senders us h = h

  next_place :
      (before : List Transaction) (t : Transaction) (ts : List Transaction)
      → pending ≡ before ++ (t ∷ ts)
      → pending ≡ (before ++ (t ∷ [])) ++ ts
  next_place before t ts e = e ∙ sym (append_assoc before (t ∷ []) ts)

  offer_pending-Offers :
      (p : PeerId) (slots : ℕ) (senders : List Str) (before ts : List Transaction)
      (state : TransactionGossip × Swarm)
      → pending ≡ before ++ ts
      → All (Passed chain state.0.known p senders) before
      → Offers pending state.0.known state.1.sent
          (offer_pending request_id now chain genesis p slots senders ts state)
  unfolding offer_pending
  offer_pending-Offers p slots senders before [] state e h = no_Offers pending state
  offer_pending-Offers p zero senders before (t ∷ ts) state e h = no_Offers pending state
  offer_pending-Offers p (suc slots) senders before (t ∷ ts) state e h =
      let known = state.0.known in
      let more = set_insert t.sender senders in
      let held : Passed chain known p more t = inl (set_insert-member t.sender senders) in
      elim (Choice-cases (choose now chain p state.0 senders t)) [
        | inl c ↦
            rw (c, offer_pending)
              (offer_pending-Offers p (suc slots) senders (before ++ (t ∷ [])) ts state
                (next_place before t ts e)
                (All-append (Passed chain known p senders) before (t ∷ []) h
                  (choose-skip now chain p state.0 senders t c, tt)))
        | inr (inl c) ↦
            rw (c, offer_pending)
              (offer_pending-Offers p (suc slots) more (before ++ (t ∷ [])) ts state
                (next_place before t ts e)
                (All-append (Passed chain known p more) before (t ∷ [])
                  (Passed-more chain known p senders t.sender before h) (held, tt)))
        | inr (inr (key, c)) ↦
            let a : TransactionAnnouncement = record {
              genesis_hash = genesis;
              transaction = t;
              sender_key = key;
            } in
            let (fresh, registered) = choose-offer now chain p state.0 senders t c in
            rw (c, offer_pending)
              (Offers-trans
                (send_offer-Offers p a state before ts e
                  (Passed-Has chain known p senders t before fresh registered h))
                (offer_pending-Offers p slots more (before ++ (t ∷ [])) ts
                  (send_offer request_id p a state) (next_place before t ts e)
                  (sent_on p a state more (before ++ (t ∷ [])) (
                    All-append (Passed chain known p more) before (t ∷ [])
                      (Passed-more chain known p senders t.sender before h) (held, tt)))))
      ]

  offer_to_peers-Offers :
      (peers : List PeerId) (state : TransactionGossip × Swarm)
      → Offers pending state.0.known state.1.sent
          (offer_to_peers request_id now chain genesis pending peers state)
  unfolding offer_to_peers offer_to_peer
  offer_to_peers-Offers [] state = no_Offers pending state
  offer_to_peers-Offers (p ∷ peers) state =
      let requests = requests_to p state.0.in_flight in
      let after = offer_to_peer request_id now chain genesis pending p state in
      Offers-trans
        (offer_pending-Offers p (max_inflight_per_peer - length requests) (senders_of requests) []
          pending state refl tt)
        (offer_to_peers-Offers peers after)

-- Every offer that a node makes when it drives its gossip is of a pending transaction, and the peer has
-- told that it has all that come before it, in the order of the pool's drain, of the same sender.
pub drive-InOrder :
    (request_id : ℕ → RequestId) (now : ℕ) (chain : Blockchain) (peers : List PeerId)
    (state : TransactionGossip × Swarm)
    → let after = drive request_id now chain peers state in
      (new : List Sent) × (after.1.sent ≡ new ++ state.1.sent)
      × All (InOrder (sort (values chain.mempool.pending)) after.0.known) new
unfolding drive prune
drive-InOrder request_id now chain peers state =
    let pending = sort (values chain.mempool.pending) in
    let pruned = prune now (map (λ (t : Transaction). t.id) pending) peers state.0 in
    elim (Option-cases (genesis_hash chain)) [
      | inl e ↦ rw (e, drive) ([], refl, tt)
      | inr (genesis, e) ↦
          let o =
            offer_to_peers-Offers request_id now chain genesis pending peers (pruned, state.1) in
          rw (e, drive)
            (o.new, o.added, subst (λ k. All (InOrder pending k) o.new) (sym o.same) o.ordered)
    ]
