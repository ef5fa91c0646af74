-- ===== src/Mempool/Ready.antt =====
-- A drained pool can be applied to the ledger in its order, whatever the receivers are.
use block_rock.Base.{
  suc, ◌+◌, ◌-◌, ◌≤◌, ◌<◌, ◌≡◌, ◌≢◌, refl, true, false, inr, some, List, [], ◌∷◌, Str, ◌==◌,
  Bytes-discrete, if◌then◌else◌, All, get, get_or_zero, get_or_zero-insert, get_or_zero-le-total,
  total, total-insert, length, member, member-set_insert, set_insert, add_u64, add_u64_lem, u64_mod,
  arith,
}
use block_rock.Crypto.{Crypto, VerifyingKey}
use block_rock.Transaction.{Transaction, has_valid_id, payload_within_limit, verify}
use block_rock.Ledger.{LedgerState, Keys, mint_account}
use block_rock.Ledger.Settle.{debited, settled, Admissible}
use block_rock.Ledger.Valid.{AllAdmissible}
use block_rock.Ledger.Value.{minted, total-settled}
use block_rock.Ledger.Distinct.{ids, Distinct}
use block_rock.Mempool.{from_sender, sort}
use block_rock.Mempool.Order.{sort-All, length-sort}
use block_rock.Mempool.Turns.{
  Turns, spent, Stacked, from_sender_own, from_sender_other, sort-Turns, spent-sort, Distinct-sort,
}
use block_rock.Mempool.Queued.{Queued, Queued-funded}

module _ ⦃crypto : Crypto⦄ (keys : Keys) where
  -- What does not depend on the state.
  pub record Sound (t : Transaction) : Type 0 where
    pub intact : has_valid_id t ≡ true
    pub small : payload_within_limit t ≡ true
    pub other : t.sender ≢ mint_account
    pub key : VerifyingKey
    pub known : get t.sender keys ≡ some key
    pub signed : verify t key ≡ true

  -- The transactions can be applied in this order.
  pub record Ready (state : LedgerState) (seen : List Str) (ts : List Transaction) : Type 0 where
    pub sound : All Sound ts
    pub fresh : All (λ t. member t.id seen ≡ false) ts
    pub distinct : Distinct (ids ts)
    pub turns : (s : Str) → Turns (get_or_zero s state.nonces) (from_sender s ts)
    pub funds : (s : Str) → spent (from_sender s ts) ≤ get_or_zero s state.balances
    pub nonce_room : (s : Str) → get_or_zero s state.nonces + length ts < u64_mod
    pub supply : total state.balances < u64_mod

  module _ (state : LedgerState) (seen : List Str) (t : Transaction) (ts : List Transaction)
      (r : Ready state seen (t ∷ ts)) where
    head_turn : t.nonce ≡ get_or_zero t.sender state.nonces
    head_turn =
        let h = r.turns t.sender in
        let h' : Turns (get_or_zero t.sender state.nonces) (t ∷ from_sender t.sender ts) =
          rw (from_sender_own t.sender t ts refl) at h in
        h'.0

    head_funded : t.amount + spent (from_sender t.sender ts) ≤ get_or_zero t.sender state.balances
    unfolding spent
    head_funded = let h = r.funds t.sender in rw (from_sender_own t.sender t ts refl) at h

    head-Admissible : Admissible keys state seen t
    unfolding debited
    head-Admissible = record {
      intact = r.sound.0.intact;
      fresh = r.fresh.0;
      small = r.sound.0.small;
      authorized = inr (
        r.sound.0.other,
        record {
          key = r.sound.0.key;
          known = r.sound.0.known;
          signed = r.sound.0.signed;
          in_turn = head_turn;
          funded = omega (arith, head_funded);
        },
      );
      room = ground (
        arith,
        r.supply,
        r.sound.0.other,
        head_funded,
        get_or_zero-le-total t.receiver (debited state t).balances,
        total-insert t.sender (get_or_zero t.sender state.balances - t.amount) state.balances,
      );
    }

    tail_fresh :
        (us : List Transaction)
        → member t.id (ids us) ≡ false
        → All (λ u. member u.id seen ≡ false) us
        → All (λ u. member u.id (set_insert t.id seen) ≡ false) us
    unfolding member
    tail_fresh [] d h = tt
    tail_fresh (u ∷ us) d h =
        (ground (arith, member-set_insert u.id t.id seen, h.0), ground (arith, tail_fresh us))

    tail_nonce :
        (s : Str)
        → get_or_zero s (settled state t).nonces
          ≡ (if t.sender == s then suc (get_or_zero s state.nonces) else get_or_zero s state.nonces)
    unfolding settled debited
    tail_nonce s = ground (
      arith,
      r.sound.0.other,
      r.nonce_room s,
      get_or_zero-insert s t.sender (add_u64 (get_or_zero t.sender state.nonces) 1) state.nonces,
      add_u64_lem (get_or_zero t.sender state.nonces) 1,
    )

    tail-Turns : (s : Str) → Turns (get_or_zero s (settled state t).nonces) (from_sender s ts)
    tail-Turns s = elim (Bytes-discrete t.sender s) [
      | yes own ↦
          let h : Turns (get_or_zero s state.nonces) (t ∷ from_sender s ts) =
            rw (from_sender_own s t ts own) at (r.turns s) in
          let e : get_or_zero s (settled state t).nonces ≡ suc (get_or_zero s state.nonces) =
            ground (arith, tail_nonce s) in
          rw e h.1
      | no other ↦
          let h : Turns (get_or_zero s state.nonces) (from_sender s ts) =
            rw (from_sender_other s t ts other) at (r.turns s) in
          let e : get_or_zero s (settled state t).nonces ≡ get_or_zero s state.nonces =
            ground (arith, tail_nonce s) in
          rw e h
    ]

    tail_funds : (s : Str) → spent (from_sender s ts) ≤ get_or_zero s (settled state t).balances
    unfolding settled debited from_sender spent
    tail_funds s = ground (
      arith,
      r.sound.0.other,
      r.funds s,
      get_or_zero-insert s t.sender (get_or_zero t.sender state.balances - t.amount) state.balances,
      get_or_zero-insert s t.receiver (get_or_zero t.receiver (debited state t).balances + t.amount)
          (debited state t).balances,
    )

    tail_supply : total (settled state t).balances < u64_mod
    unfolding minted
    tail_supply =
        ground (arith, r.sound.0.other, r.supply, total-settled keys state seen t head-Admissible)

    tail-Ready : Ready (settled state t) (set_insert t.id seen) ts
    tail-Ready = record {
      sound = r.sound.1;
      fresh = tail_fresh ts r.distinct.0 r.fresh.1;
      distinct = r.distinct.1;
      turns = tail-Turns;
      funds = tail_funds;
      nonce_room = λ s. ground (arith, tail_nonce s, r.nonce_room s);
      supply = tail_supply;
    }

  pub Ready-AllAdmissible :
      (state : LedgerState) (seen : List Str) (ts : List Transaction)
      → Ready state seen ts
      → AllAdmissible keys state seen ts
  Ready-AllAdmissible state seen [] r = tt
  Ready-AllAdmissible state seen (t ∷ ts) r = (
    head-Admissible state seen t ts r,
    Ready-AllAdmissible (settled state t) (set_insert t.id seen) ts (tail-Ready state seen t ts r),
  )

  module _ (state : LedgerState) (on_chain : List Str) where
    Queued-Sound : (ts : List Transaction) → Queued keys state on_chain ts → All Sound ts
    Queued-Sound [] q = tt
    Queued-Sound (t ∷ ts) q = (
      record {
        intact = q.0.intact;
        small = q.0.small;
        other = q.0.other;
        key = q.0.key;
        known = q.0.known;
        signed = q.0.signed;
      },
      Queued-Sound ts q.1,
    )

    Queued-fresh :
        (ts : List Transaction)
        → Queued keys state on_chain ts
        → All (λ t. member t.id on_chain ≡ false) ts
    Queued-fresh [] q = tt
    Queued-fresh (t ∷ ts) q = (q.0.unconfirmed, Queued-fresh ts q.1)

    Queued-Distinct : (ts : List Transaction) → Queued keys state on_chain ts → Distinct (ids ts)
    Queued-Distinct [] q = tt
    Queued-Distinct (t ∷ ts) q = (q.0.unqueued, Queued-Distinct ts q.1)

    Queued-Stacked :
        (s : Str) (ts : List Transaction)
        → Queued keys state on_chain ts
        → Stacked s (get_or_zero s state.nonces) ts
    Queued-Stacked s [] q = tt
    Queued-Stacked s (t ∷ ts) q = (λ e. rw e at q.0.in_turn, Queued-Stacked s ts q.1)

    -- The sorted pool is ready.
    pub Queued-Ready :
        (ts : List Transaction)
        → Queued keys state on_chain ts
        → ((s : Str) → get_or_zero s state.nonces + length ts < u64_mod)
        → total state.balances < u64_mod
        → Ready state on_chain (sort ts)
    Queued-Ready ts q room supply = record {
      sound = sort-All Sound ts (Queued-Sound ts q);
      fresh = sort-All (λ t. member t.id on_chain ≡ false) ts (Queued-fresh ts q);
      distinct = Distinct-sort ts (Queued-Distinct ts q);
      turns = λ s. (sort-Turns s (get_or_zero s state.nonces) ts (Queued-Stacked s ts q)).0;
      funds = λ s. rw (spent-sort s ts) (Queued-funded keys state on_chain s ts q);
      nonce_room = λ s. rw (length-sort ts) (room s);
      supply = supply;
    }
