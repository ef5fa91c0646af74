-- ===== src/Propagation/Slots.antt =====
-- A node has at most `max_inflight_per_peer` offers to a peer under way, and at most one of each sender.
use block_rock.Base.{
  ℕ, suc, ◌+◌, ◌≤◌, ◌≡◌, ◌≢◌, true, false, Bool, Bool-cases, inl, inr, List, [], ◌∷◌, Str, ◌==◌,
  ==_refl, Map, insert, remove, member, member-set_insert, set_insert, length, arith,
}
use block_rock.Ledger.Distinct.{Distinct}
use block_rock.Propagation.{
  PeerId, RequestId, InFlight, max_inflight_per_peer, retain, requests_to, senders_of,
}

-- The first map is the second without some of its entries.
pub data Thins {ℓ} {V : Type ℓ} : Map V → Map V → Type ℓ where
  done : Thins [] []
  keep : {m m' : Map V} (e : Str × V) → Thins m m' → Thins (e ∷ m) (e ∷ m')
  drop : {m m' : Map V} (e : Str × V) → Thins m m' → Thins m (e ∷ m')

Thins-refl {ℓ} : {V : Type ℓ} (m : Map V) → Thins m m
Thins-refl [] = Thins.done
Thins-refl (e ∷ m) = Thins.keep e (Thins-refl m)

pub remove-Thins {ℓ} : {V : Type ℓ} (k : Str) (m : Map V) → Thins (remove k m) m
unfolding remove
remove-Thins k [] = Thins.done
remove-Thins k ((j, v) ∷ m) = elim (Bool-cases (j == k)) [
  | inl same ↦ rw same (Thins.drop (j, v) (Thins-refl m))
  | inr other ↦ rw other (Thins.keep (j, v) (remove-Thins k m))
]

pub retain-Thins {ℓ} : {V : Type ℓ} (test : Str → V → Bool) (m : Map V) → Thins (retain test m) m
unfolding retain
retain-Thins test [] = Thins.done
retain-Thins test ((k, v) ∷ m) = elim (Bool-cases (test k v)) [
  | inl yes_keep ↦ rw yes_keep (Thins.keep (k, v) (retain-Thins test m))
  | inr no_keep ↦ rw no_keep (Thins.drop (k, v) (retain-Thins test m))
]

module _ (p : PeerId) where
  -- The offers to the peer that are under way.
  pub record Seats (m : Map InFlight) : Type 0 where
    pub few : length (requests_to p m) ≤ max_inflight_per_peer
    pub apart : Distinct (senders_of (requests_to p m))

  length-Thins :
      {m m' : Map InFlight} → Thins m m' → length (requests_to p m) ≤ length (requests_to p m')
  unfolding requests_to
  length-Thins Thins.done = omega arith
  length-Thins (Thins.keep e t) = ground (arith, length-Thins t)
  length-Thins (Thins.drop e t) = ground (arith, length-Thins t)

  member-Thins :
      (s : Str) {m m' : Map InFlight}
      → Thins m m'
      → member s (senders_of (requests_to p m)) ≡ true
      → member s (senders_of (requests_to p m')) ≡ true
  unfolding requests_to member
  member-Thins s Thins.done h = h
  member-Thins s (Thins.keep e t) h = ground (arith, member-Thins s t)
  member-Thins s (Thins.drop e t) h = ground (arith, member-Thins s t)

  absent-Thins :
      (s : Str) {m m' : Map InFlight}
      → Thins m m'
      → member s (senders_of (requests_to p m')) ≡ false
      → member s (senders_of (requests_to p m)) ≡ false
  absent-Thins s {m} t h = elim (Bool-cases (member s (senders_of (requests_to p m)))) [
    | inl there ↦ ground (arith, member-Thins s t there)
    | inr absent ↦ absent
  ]

  Distinct-Thins :
      {m m' : Map InFlight}
      → Thins m m'
      → Distinct (senders_of (requests_to p m'))
      → Distinct (senders_of (requests_to p m))
  unfolding requests_to
  Distinct-Thins Thins.done d = d
  Distinct-Thins (Thins.keep (i, r) t) d = elim (Bool-cases (r.peer == p)) [
    | inl mine ↦
        rw mine (let d' = rw mine at d in (absent-Thins r.sender t d'.0, Distinct-Thins t d'.1))
    | inr other ↦ rw other (Distinct-Thins t (rw other at d))
  ]
  Distinct-Thins (Thins.drop (i, r) t) d = elim (Bool-cases (r.peer == p)) [
    | inl mine ↦ Distinct-Thins t (rw mine at d).1
    | inr other ↦ Distinct-Thins t (rw other at d)
  ]

  pub Seats-Thins : {m m' : Map InFlight} → Thins m m' → Seats m' → Seats m
  Seats-Thins t s = record {
    few = omega (arith, length-Thins t, s.few);
    apart = Distinct-Thins t s.apart;
  }

  -- There are `slots` seats left, and the senders that have one are among `senders`.
  pub record Room (slots : ℕ) (senders : List Str) (m : Map InFlight) : Type 0 where
    pub few : slots + length (requests_to p m) ≤ max_inflight_per_peer
    pub apart : Distinct (senders_of (requests_to p m))
    pub noted : (s : Str) → member s (senders_of (requests_to p m)) ≡ true → member s senders ≡ true

  pub Room-more :
      (slots : ℕ) (senders : List Str) (s : Str) (m : Map InFlight)
      → Room slots senders m
      → Room slots (set_insert s senders) m
  Room-more slots senders s m r = record {
    few = r.few;
    apart = r.apart;
    noted = λ u h. ground (arith, r.noted u h, member-set_insert u s senders);
  }

  -- A new offer takes one seat.
  pub Room-insert :
      (slots : ℕ) (senders : List Str) (i : RequestId) (r : InFlight) (m : Map InFlight)
      → r.peer ≡ p
      → member r.sender senders ≡ false
      → Room (suc slots) senders m
      → Room slots (set_insert r.sender senders) (insert i r m)
  unfolding insert requests_to member
  Room-insert slots senders i r m mine new room =
      let t = remove-Thins i m in
      let free : member r.sender (senders_of (requests_to p m)) ≡ false =
        ground (arith, room.noted r.sender) in
      record {
        few = ground (arith, room.few, length-Thins t, ==_refl p);
        apart =
            ground (arith, ==_refl p, absent-Thins r.sender t free, Distinct-Thins t room.apart);
        noted = λ u h. ground (
          arith,
          ==_refl p,
          member-set_insert u r.sender senders,
          member-Thins u t,
          room.noted u,
        );
      }

  -- An offer to another peer takes none.
  pub Seats-insert_other :
      (i : RequestId) (r : InFlight) (m : Map InFlight)
      → r.peer ≢ p
      → Seats m
      → Seats (insert i r m)
  unfolding insert requests_to
  Seats-insert_other i r m other s =
      let s' = Seats-Thins (remove-Thins i m) s in
      record { few = ground (arith, s'.few); apart = ground (arith, s'.apart) }
