-- ===== src/Propagation/Serving.antt =====
-- What `drive` of zion-core/src/network/transactions.rs leaves to be offered: nothing that a peer could
-- be offered now, unless its seats are taken.
pub mod Steps
pub mod Offering
pub mod Reach
use mathlib.Core.List.{append_assoc}
use block_rock.Base.{
  ◌+◌, ◌-◌, ◌≤◌, ==_refl, ==→eq, ℕ, zero, suc, ◌≡◌, ◌≢◌, ◌⊎◌, refl, sym, ap, ◌∙◌, subst, Bool, true,
  false, ◌||◌, Bool-cases, inl, inr, none, some, Option, Option-cases, List, [], ◌∷◌, ◌++◌, map,
  Str, ◌==◌, ==-eq-false, is_some, All, All-append, Map, get, insert, insert_absent, member,
  set_insert, member-set_insert, values, length, arith,
}
use block_rock.Transaction.{Transaction}
use block_rock.Mempool.{sort}
use block_rock.Blockchain.{Blockchain, public_key, genesis_hash}
use block_rock.Gossip.{TransactionAnnouncement}
use block_rock.Propagation.{
  PeerId, RequestId, InFlight, TransactionGossip, Sent, Swarm, max_inflight_per_peer, prune,
  is_after, requests_to, senders_of, get_within, Choice, skip, postpone, offer, choose, send_offer,
  offer_pending, offer_to_peer, offer_to_peers, drive,
}
use block_rock.Propagation.Bounds.{Choice-cases, choose-offer}
use block_rock.Propagation.InOrder.{Has}

-- libp2p documents that the ids of requests are unique.
abbrev pub Unique : (ℕ → RequestId) → Type 0
Unique request_id = (m n : ℕ) → request_id m ≡ request_id n → m ≡ n

-- The ids of the requests to come are not in use.
abbrev pub Fresh : (ℕ → RequestId) → TransactionGossip × Swarm → Type 0
Fresh request_id state =
    (n : ℕ) → state.1.requests ≤ n → get (request_id n) state.0.in_flight ≡ none

-- The senders of whom something is under way to a peer.
abbrev pub busy_with : PeerId → TransactionGossip → List Str
busy_with p g = senders_of (requests_to p g.in_flight)

-- A transaction of the sender, among these, is put off: the peer refused it, and may be asked later.
abbrev pub PutOff : ℕ → PeerId → TransactionGossip → Str → List Transaction → Type 0
PutOff now p g s [] = ⊥
PutOff now p g s (u ∷ us) =
    ((u.sender ≡ s) × (is_after (get_within p u.id g.retry_after) now ≡ true)) ⊎ PutOff now p g s us

-- Why a transaction is not offered now, where `before` comes before it.
abbrev pub Settled :
    ℕ → Blockchain → PeerId → TransactionGossip → List Transaction → Transaction → Type 0
Settled now chain p g before t =
    Has g.known p t
    ⊎ (member t.sender (busy_with p g) ≡ true)
    ⊎ PutOff now p g t.sender (before ++ (t ∷ []))
    ⊎ (public_key chain t.sender ≡ none)

-- All of a list is settled, behind what comes before it.
abbrev pub AllSettled :
    ℕ → Blockchain → PeerId → TransactionGossip → List Transaction → List Transaction → Type 0
AllSettled now chain p g before [] = Unit
AllSettled now chain p g before (t ∷ ts) =
    Settled now chain p g before t × AllSettled now chain p g (before ++ (t ∷ [])) ts

-- The seats are taken, or all is settled.
abbrev pub Served :
    ℕ → Blockchain → PeerId → List Transaction → List Transaction → TransactionGossip → Type 0
Served now chain p before ts g =
    (max_inflight_per_peer ≤ length (requests_to p g.in_flight))
    ⊎ AllSettled now chain p g before ts

-- The second state has the offers of the first, and perhaps more.
pub record Grown (g g' : TransactionGossip) : Type 0 where
  pub known_same : g'.known ≡ g.known
  pub retry_same : g'.retry_after ≡ g.retry_after
  pub busy :
      (p : PeerId) (s : Str) → member s (busy_with p g) ≡ true → member s (busy_with p g') ≡ true
  pub more : (p : PeerId) → length (requests_to p g.in_flight) ≤ length (requests_to p g'.in_flight)

pub Grown-refl : (g : TransactionGossip) → Grown g g
Grown-refl g = record {
  known_same = refl;
  retry_same = refl;
  busy = λ p s h. h;
  more = λ p. omega arith;
}

pub Grown-trans : {g h k : TransactionGossip} → Grown g h → Grown h k → Grown g k
Grown-trans a b = record {
  known_same = b.known_same ∙ a.known_same;
  retry_same = b.retry_same ∙ a.retry_same;
  busy = λ p s h. b.busy p s (a.busy p s h);
  more = λ p. omega (arith, a.more p, b.more p);
}

pub PutOff-same :
    (now : ℕ) (p : PeerId) (g g' : TransactionGossip) (s : Str) (us : List Transaction)
    → g'.retry_after ≡ g.retry_after
    → PutOff now p g s us
    → PutOff now p g' s us
PutOff-same now p g g' s [] e h = h
PutOff-same now p g g' s (u ∷ us) e (inl (same, h)) = inl (same, rw e h)
PutOff-same now p g g' s (u ∷ us) e (inr h) = inr (PutOff-same now p g g' s us e h)

pub PutOff-before :
    (now : ℕ) (p : PeerId) (g : TransactionGossip) (s : Str) (us vs : List Transaction)
    → PutOff now p g s us
    → PutOff now p g s (us ++ vs)
PutOff-before now p g s [] vs h = elim h [ ]
PutOff-before now p g s (u ∷ us) vs (inl h) = inl h
PutOff-before now p g s (u ∷ us) vs (inr h) = inr (PutOff-before now p g s us vs h)

pub PutOff-last :
    (now : ℕ) (p : PeerId) (g : TransactionGossip) (us : List Transaction) (t : Transaction)
    → is_after (get_within p t.id g.retry_after) now ≡ true
    → PutOff now p g t.sender (us ++ (t ∷ []))
PutOff-last now p g [] t h = inl (refl, h)
PutOff-last now p g (u ∷ us) t h = inr (PutOff-last now p g us t h)

pub Settled-Grown :
    (now : ℕ) (chain : Blockchain) (p : PeerId) (g g' : TransactionGossip)
    (before : List Transaction) (t : Transaction)
    → Grown g g'
    → Settled now chain p g before t
    → Settled now chain p g' before t
Settled-Grown now chain p g g' before t w (inl h) = inl (rw w.known_same h)
Settled-Grown now chain p g g' before t w (inr (inl h)) = inr (inl (w.busy p t.sender h))
Settled-Grown now chain p g g' before t w (inr (inr (inl h))) =
    inr (inr (inl (PutOff-same now p g g' t.sender (before ++ (t ∷ [])) w.retry_same h)))
Settled-Grown now chain p g g' before t w (inr (inr (inr h))) = inr (inr (inr h))

pub AllSettled-Grown :
    (now : ℕ) (chain : Blockchain) (p : PeerId) (g g' : TransactionGossip)
    (before ts : List Transaction)
    → Grown g g'
    → AllSettled now chain p g before ts
    → AllSettled now chain p g' before ts
AllSettled-Grown now chain p g g' before [] w h = tt
AllSettled-Grown now chain p g g' before (t ∷ ts) w (h, hs) = (
  Settled-Grown now chain p g g' before t w h,
  AllSettled-Grown now chain p g g' (before ++ (t ∷ [])) ts w hs,
)

module _ (request_id : ℕ → RequestId) (unique : Unique request_id) where
  pub send_offer-in_flight :
      (p : PeerId) (a : TransactionAnnouncement) (state : TransactionGossip × Swarm)
      → Fresh request_id state
      → (send_offer request_id p a state).0.in_flight
        ≡ (
          request_id state.1.requests,
          record { peer = p; id = a.transaction.id; sender = a.transaction.sender },
        )
          ∷ state.0.in_flight
  unfolding send_offer
  send_offer-in_flight p a state fresh =
      insert_absent (request_id state.1.requests)
        (record { peer = p; id = a.transaction.id; sender = a.transaction.sender })
        state.0.in_flight (fresh state.1.requests (omega arith))

  pub send_offer-rest :
      (p : PeerId) (a : TransactionAnnouncement) (state : TransactionGossip × Swarm)
      → ((send_offer request_id p a state).1.requests ≡ suc state.1.requests)
        × ((send_offer request_id p a state).0.known ≡ state.0.known)
        × ((send_offer request_id p a state).0.retry_after ≡ state.0.retry_after)
  unfolding send_offer
  send_offer-rest p a state = (refl, refl, refl)

  pub send_offer-Fresh :
      (p : PeerId) (a : TransactionAnnouncement) (state : TransactionGossip × Swarm)
      → Fresh request_id state
      → Fresh request_id (send_offer request_id p a state)
  unfolding get
  send_offer-Fresh p a state fresh n h =
      let later : suc state.1.requests ≤ n = omega (arith, (send_offer-rest p a state).0) in
      rw (send_offer-in_flight p a state fresh) (
        rw
          (==-eq-false (request_id state.1.requests) (request_id n)
            (λ e. absurd (omega (arith, unique state.1.requests n e))))
          (fresh n (omega arith)))

  pub send_offer-Grown :
      (p : PeerId) (a : TransactionAnnouncement) (state : TransactionGossip × Swarm)
      → Fresh request_id state
      → Grown state.0 (send_offer request_id p a state).0
  unfolding requests_to member
  send_offer-Grown p a state fresh = record {
    known_same = (send_offer-rest p a state).1;
    retry_same = (send_offer-rest p a state).2;
    busy = λ q s h. rw (send_offer-in_flight p a state fresh) (ground arith);
    more = λ q. rw (send_offer-in_flight p a state fresh) (ground arith);
  }
