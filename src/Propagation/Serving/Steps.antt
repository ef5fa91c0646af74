-- ===== src/Propagation/Serving/Steps.antt =====
-- The steps of the loop of `drive` over the pending transactions, in zion-core/src/network/transactions.rs.
use block_rock.Base.{
  ◌+◌, ◌≤◌, ==_refl, ==→eq, ℕ, zero, suc, ◌≡◌, ◌⊎◌, refl, subst, true, inl, inr, none, List, [],
  ◌∷◌, ◌++◌, Str, member, set_insert, member-set_insert, length, arith,
}
use block_rock.Transaction.{Transaction}
use block_rock.Blockchain.{Blockchain, public_key}
use block_rock.Gossip.{TransactionAnnouncement}
use block_rock.Propagation.{
  PeerId, RequestId, TransactionGossip, Swarm, max_inflight_per_peer, is_after, requests_to,
  get_within, skip, postpone, offer, choose, send_offer, offer_pending,
}
use block_rock.Propagation.Bounds.{Choice-cases}
use block_rock.Propagation.InOrder.{Has}
use block_rock.Propagation.Serving.{
  Unique, Fresh, busy_with, PutOff, Grown, Grown-refl, Grown-trans, PutOff-same, PutOff-before,
  PutOff-last, send_offer-in_flight, send_offer-Fresh, send_offer-Grown,
}

module _ (request_id : ℕ → RequestId) (unique : Unique request_id) where
  module _ (now : ℕ) (chain : Blockchain) (genesis : Str) where
    abbrev pub offered : PeerId → Transaction → Str → TransactionAnnouncement
    offered p t key = record { genesis_hash = genesis; transaction = t; sender_key = key }

    -- What the loop for a peer does to the state.
    pub offer_pending-Grown :
        (p : PeerId) (slots : ℕ) (senders : List Str) (ts : List Transaction)
        (state : TransactionGossip × Swarm)
        → Fresh request_id state
        → Grown state.0 (offer_pending request_id now chain genesis p slots senders ts state).0
          × Fresh request_id (offer_pending request_id now chain genesis p slots senders ts state)
    unfolding offer_pending
    offer_pending-Grown p slots senders [] state f = (Grown-refl state.0, f)
    offer_pending-Grown p zero senders (t ∷ ts) state f = (Grown-refl state.0, f)
    offer_pending-Grown p (suc slots) senders (t ∷ ts) state f =
        let more = set_insert t.sender senders in
        elim (Choice-cases (choose now chain p state.0 senders t)) [
          | inl c ↦ rw (c, offer_pending) (offer_pending-Grown p (suc slots) senders ts state f)
          | inr (inl c) ↦ rw (c, offer_pending) (offer_pending-Grown p (suc slots) more ts state f)
          | inr (inr (key, c)) ↦
              let a = offered p t key in
              let (w, f') =
                offer_pending-Grown p slots more ts (send_offer request_id p a state)
                  (send_offer-Fresh request_id unique p a state f) in
              rw (c, offer_pending)
                (Grown-trans (send_offer-Grown request_id unique p a state f) w, f')
        ]

    -- Whoever is among the senders is so for a reason.
    abbrev pub Accounted : PeerId → TransactionGossip → List Transaction → List Str → Type 0
    Accounted p g before senders =
        (s : Str)
        → member s senders ≡ true
        → (member s (busy_with p g) ≡ true) ⊎ PutOff now p g s before

    pub choose-skip :
        (p : PeerId) (g : TransactionGossip) (senders : List Str) (t : Transaction)
        → choose now chain p g senders t ≡ skip
        → (member t.sender senders ≡ true) ⊎ Has g.known p t ⊎ (public_key chain t.sender ≡ none)
    unfolding choose
    choose-skip p g senders t h = ground arith

    pub choose-postpone :
        (p : PeerId) (g : TransactionGossip) (senders : List Str) (t : Transaction)
        → choose now chain p g senders t ≡ postpone
        → is_after (get_within p t.id g.retry_after) now ≡ true
    unfolding choose
    choose-postpone p g senders t h = ground arith

    -- The state of the loop: the seats that are left, and the senders that are not to be offered.
    pub record Loop (p : PeerId) (slots : ℕ) (senders : List Str) (before : List Transaction)
        (state : TransactionGossip × Swarm) : Type 0 where
      pub fresh : Fresh request_id state
      pub seats : max_inflight_per_peer ≤ slots + length (requests_to p state.0.in_flight)
      pub accounted : Accounted p state.0 before senders

    pub Loop-skip :
        (p : PeerId) (slots : ℕ) (senders : List Str) (before : List Transaction)
        (state : TransactionGossip × Swarm) (t : Transaction)
        → Loop p slots senders before state
        → Loop p slots senders (before ++ (t ∷ [])) state
    Loop-skip p slots senders before state t l = record {
      fresh = l.fresh;
      seats = l.seats;
      accounted = λ s h. elim (l.accounted s h) [
        | inl b ↦ inl b
        | inr q ↦ inr (PutOff-before now p state.0 s before (t ∷ []) q)
      ];
    }

    -- A name of the larger set is the new one or an old one.
    set_insert-cases :
        (s x : Str) (senders : List Str)
        → member s (set_insert x senders) ≡ true
        → (x ≡ s) ⊎ (member s senders ≡ true)
    set_insert-cases s x senders h = ground (arith, member-set_insert s x senders, ==→eq x s)

    pub Loop-postpone :
        (p : PeerId) (slots : ℕ) (senders : List Str) (before : List Transaction)
        (state : TransactionGossip × Swarm) (t : Transaction)
        → is_after (get_within p t.id state.0.retry_after) now ≡ true
        → Loop p slots senders before state
        → Loop p slots (set_insert t.sender senders) (before ++ (t ∷ [])) state
    Loop-postpone p slots senders before state t later l = record {
      fresh = l.fresh;
      seats = l.seats;
      accounted = λ s h. elim (set_insert-cases s t.sender senders h) [
        | inl e ↦ inr (
            subst (λ x. PutOff now p state.0 x (before ++ (t ∷ []))) e
              (PutOff-last now p state.0 before t later))
        | inr old ↦ (Loop-skip p slots senders before state t l).accounted s old
      ];
    }

    pub send_offer-busy :
        (p : PeerId) (a : TransactionAnnouncement) (state : TransactionGossip × Swarm)
        → Fresh request_id state
        → (member a.transaction.sender (busy_with p (send_offer request_id p a state).0) ≡ true)
          × (length (requests_to p (send_offer request_id p a state).0.in_flight)
              ≡ suc (length (requests_to p state.0.in_flight)))
    unfolding requests_to member
    send_offer-busy p a state fresh =
        rw (send_offer-in_flight request_id unique p a state fresh)
          (ground (arith, ==_refl p, ==_refl a.transaction.sender))

    pub Loop-offer :
        (p : PeerId) (slots : ℕ) (senders : List Str) (before : List Transaction)
        (state : TransactionGossip × Swarm) (t : Transaction) (key : Str)
        → Loop p (suc slots) senders before state
        → Loop p slots
            (set_insert t.sender senders)
            (before ++ (t ∷ []))
            (send_offer request_id p (offered p t key) state)
    Loop-offer p slots senders before state t key l =
        let a = offered p t key in
        let w = send_offer-Grown request_id unique p a state l.fresh in
        let (busy, one_more) = send_offer-busy p a state l.fresh in
        record {
          fresh = send_offer-Fresh request_id unique p a state l.fresh;
          seats = omega (arith, l.seats, one_more);
          accounted = λ s h. elim (set_insert-cases s t.sender senders h) [
            | inl e ↦ inl (
                subst (λ x. member x (busy_with p (send_offer request_id p a state).0) ≡ true) e
                  busy)
            | inr old ↦ elim (l.accounted s old) [
              | inl b ↦ inl (w.busy p s b)
              | inr q ↦ inr (
                  PutOff-same now p state.0 (send_offer request_id p a state).0 s
                    (before ++ (t ∷ [])) w.retry_same
                    (PutOff-before now p state.0 s before (t ∷ []) q))
            ]
          ];
        }

    -- The steps of the loop.
    module _ (p : PeerId) (slots : ℕ) (senders : List Str) (t : Transaction) (ts : List Transaction)
        (state : TransactionGossip × Swarm) where
      pub step_skip :
          choose now chain p state.0 senders t ≡ skip
          → offer_pending request_id now chain genesis p (suc slots) senders (t ∷ ts) state
            ≡ offer_pending request_id now chain genesis p (suc slots) senders ts state
      unfolding offer_pending
      step_skip c = rw (c, offer_pending) refl

      pub step_postpone :
          choose now chain p state.0 senders t ≡ postpone
          → offer_pending request_id now chain genesis p (suc slots) senders (t ∷ ts) state
            ≡ offer_pending request_id now chain genesis p
                (suc slots)
                (set_insert t.sender senders)
                ts
                state
      unfolding offer_pending
      step_postpone c = rw (c, offer_pending) refl

      pub step_offer :
          (key : Str)
          → choose now chain p state.0 senders t ≡ offer key
          → offer_pending request_id now chain genesis p (suc slots) senders (t ∷ ts) state
            ≡ offer_pending request_id now chain genesis p slots
                (set_insert t.sender senders)
                ts
                (send_offer request_id p (offered p t key) state)
      unfolding offer_pending
      step_offer key c = rw (c, offer_pending) refl

    pub step_full :
        (p : PeerId) (senders : List Str) (ts : List Transaction)
        (state : TransactionGossip × Swarm)
        → offer_pending request_id now chain genesis p zero senders ts state ≡ state
    unfolding offer_pending
    step_full p senders [] state = refl
    step_full p senders (t ∷ ts) state = refl
