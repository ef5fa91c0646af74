-- ===== src/Propagation/Serving/Offering.antt =====
-- The loops of `drive` in zion-core/src/network/transactions.rs: each peer is served in its turn.
use block_rock.Base.{
  ◌-◌, ==→eq, ℕ, zero, suc, ◌≡◌, sym, subst, true, Bool-cases, inl, inr, List, [], ◌∷◌, ◌++◌, Str,
  ◌==◌, member, set_insert, length, arith,
}
use block_rock.Transaction.{Transaction}
use block_rock.Blockchain.{Blockchain}
use block_rock.Propagation.{
  PeerId, RequestId, TransactionGossip, Swarm, max_inflight_per_peer, requests_to, senders_of, skip,
  choose, send_offer, offer_pending, offer_to_peer, offer_to_peers,
}
use block_rock.Propagation.Bounds.{Choice-cases}
use block_rock.Propagation.Serving.{
  Unique, Fresh, Settled, Served, Grown, Grown-refl, Grown-trans, PutOff-last, Settled-Grown,
  AllSettled-Grown,
}
use block_rock.Propagation.Serving.Steps.{
  offered, offer_pending-Grown, choose-skip, choose-postpone, Loop, Loop-skip, Loop-postpone,
  send_offer-busy, Loop-offer, step_skip, step_postpone, step_offer, step_full,
}

module _ (request_id : ℕ → RequestId) (unique : Unique request_id) where
  module _ (now : ℕ) (chain : Blockchain) (genesis : Str) where
    -- One transaction more that is settled.
    Served-cons :
        (p : PeerId) (before : List Transaction) (t : Transaction) (ts : List Transaction)
        (g : TransactionGossip)
        → Settled now chain p g before t
        → Served now chain p (before ++ (t ∷ [])) ts g
        → Served now chain p before (t ∷ ts) g
    Served-cons p before t ts g h (inl full) = inl full
    Served-cons p before t ts g h (inr all) = inr (h, all)

    skipped-Settled :
        (p : PeerId) (slots : ℕ) (senders : List Str) (before : List Transaction)
        (state : TransactionGossip × Swarm) (t : Transaction)
        → choose now chain p state.0 senders t ≡ skip
        → Loop request_id unique now chain genesis p slots senders before state
        → Settled now chain p state.0 before t
    skipped-Settled p slots senders before state t c l =
        elim (choose-skip request_id unique now chain genesis p state.0 senders t c) [
          | inl m ↦
              elim ((Loop-skip request_id unique now chain genesis p slots senders before state t
                  l).accounted
                t.sender m) [ inl b ↦ inr (inl b) | inr q ↦ inr (inr (inl q)) ]
          | inr (inl has) ↦ inl has
          | inr (inr unknown) ↦ inr (inr (inr unknown))
        ]

    Served-same :
        (p : PeerId) (before ts : List Transaction) {state state' : TransactionGossip × Swarm}
        → state ≡ state'
        → Served now chain p before ts state'.0
        → Served now chain p before ts state.0
    Served-same p before ts e =
        subst (λ (x : TransactionGossip × Swarm). Served now chain p before ts x.0) (sym e)

    offer_pending-Served :
        (p : PeerId) (slots : ℕ) (senders : List Str) (before ts : List Transaction)
        (state : TransactionGossip × Swarm)
        → Loop request_id unique now chain genesis p slots senders before state
        → Served now chain p before ts
            (offer_pending request_id now chain genesis p slots senders ts state).0
    offer_pending-Served p slots senders before [] state l = inr tt
    offer_pending-Served p zero senders before (t ∷ ts) state l = inl (
        rw (step_full request_id unique now chain genesis p senders (t ∷ ts) state)
          (omega (arith, l.seats)))
    offer_pending-Served p (suc slots) senders before (t ∷ ts) state l =
        let more = set_insert t.sender senders in
        elim (Choice-cases (choose now chain p state.0 senders t)) [
          | inl c ↦
              let (w, _) =
                offer_pending-Grown request_id unique now chain genesis p (suc slots) senders ts
                  state l.fresh in
              Served-same p before (t ∷ ts)
                (step_skip request_id unique now chain genesis p slots senders t ts state c)
                (Served-cons p before t ts
                  (offer_pending request_id now chain genesis p (suc slots) senders ts state).0
                  (Settled-Grown now chain p state.0 _ before t w
                    (skipped-Settled p (suc slots) senders before state t c l))
                  (offer_pending-Served p (suc slots) senders (before ++ (t ∷ [])) ts state (
                    Loop-skip request_id unique now chain genesis p (suc slots) senders before state
                      t l)))
          | inr (inl c) ↦
              let later =
                choose-postpone request_id unique now chain genesis p state.0 senders t c in
              let (w, _) =
                offer_pending-Grown request_id unique now chain genesis p (suc slots) more ts state
                  l.fresh in
              Served-same p before (t ∷ ts)
                (step_postpone request_id unique now chain genesis p slots senders t ts state c)
                (Served-cons p before t ts
                  (offer_pending request_id now chain genesis p (suc slots) more ts state).0
                  (Settled-Grown now chain p state.0 _ before t w
                    (inr (inr (inl (PutOff-last now p state.0 before t later)))))
                  (offer_pending-Served p (suc slots) more (before ++ (t ∷ [])) ts state (
                    Loop-postpone request_id unique now chain genesis p (suc slots) senders before
                      state t later l)))
          | inr (inr (key, c)) ↦
              let a = offered request_id unique now chain genesis p t key in
              let state' = send_offer request_id p a state in
              let l' =
                Loop-offer request_id unique now chain genesis p slots senders before state t key
                  l in
              let (w, _) =
                offer_pending-Grown request_id unique now chain genesis p slots more ts state'
                  l'.fresh in
              Served-same p before (t ∷ ts)
                (step_offer request_id unique now chain genesis p slots senders t ts state key c)
                (Served-cons p before t ts
                  (offer_pending request_id now chain genesis p slots more ts state').0
                  (Settled-Grown now chain p state'.0 _ before t w (
                    inr (
                      inl
                        (send_offer-busy request_id unique now chain genesis p a state l.fresh).0)))
                  (offer_pending-Served p slots more (before ++ (t ∷ [])) ts state' l'))
        ]

    -- The loop over the pending transactions for one peer.
    offer_to_peer-Served :
        (pending : List Transaction) (p : PeerId) (state : TransactionGossip × Swarm)
        → Fresh request_id state
        → Served now chain p [] pending
            (offer_to_peer request_id now chain genesis pending p state).0
          × Grown state.0 (offer_to_peer request_id now chain genesis pending p state).0
          × Fresh request_id (offer_to_peer request_id now chain genesis pending p state)
    unfolding offer_to_peer
    offer_to_peer-Served pending p state f =
        let requests = requests_to p state.0.in_flight in
        let slots = max_inflight_per_peer - length requests in
        let l : Loop request_id unique now chain genesis p slots (senders_of requests) [] state =
          record { fresh = f; seats = omega arith; accounted = λ s h. inl h } in
        let (w, f') =
          offer_pending-Grown request_id unique now chain genesis p slots (senders_of requests)
            pending state f in
        (offer_pending-Served p slots (senders_of requests) [] pending state l, w, f')

    Served-Grown :
        (p : PeerId) (ts : List Transaction) {g g' : TransactionGossip}
        → Grown g g'
        → Served now chain p [] ts g
        → Served now chain p [] ts g'
    Served-Grown p ts w (inl full) = inl (omega (arith, full, w.more p))
    Served-Grown p ts {g} {g'} w (inr all) = inr (AllSettled-Grown now chain p g g' [] ts w all)

    pub offer_to_peers-Grown :
        (pending : List Transaction) (peers : List PeerId) (state : TransactionGossip × Swarm)
        → Fresh request_id state
        → Grown state.0 (offer_to_peers request_id now chain genesis pending peers state).0
          × Fresh request_id (offer_to_peers request_id now chain genesis pending peers state)
    unfolding offer_to_peers
    offer_to_peers-Grown pending [] state f = (Grown-refl state.0, f)
    offer_to_peers-Grown pending (q ∷ peers) state f =
        let (_, w, f') = offer_to_peer-Served pending q state f in
        let (w', f'') =
          offer_to_peers-Grown pending peers
            (offer_to_peer request_id now chain genesis pending q state) f' in
        (Grown-trans w w', f'')

    pub offer_to_peers-Served :
        (pending : List Transaction) (peers : List PeerId) (p : PeerId)
        (state : TransactionGossip × Swarm)
        → member p peers ≡ true
        → Fresh request_id state
        → Served now chain p [] pending
            (offer_to_peers request_id now chain genesis pending peers state).0
    unfolding offer_to_peers member
    offer_to_peers-Served pending [] p state h f = ground arith
    offer_to_peers-Served pending (q ∷ peers) p state h f =
        let (served, w, f') = offer_to_peer-Served pending q state f in
        let next = offer_to_peer request_id now chain genesis pending q state in
        elim (Bool-cases (q == p)) [
          | inl e ↦
              Served-Grown p pending (offer_to_peers-Grown pending peers next f').0
                (subst (λ x. Served now chain x [] pending next.0) (==→eq q p e) served)
          | inr n ↦ offer_to_peers-Served pending peers p next (ground arith) f'
        ]
