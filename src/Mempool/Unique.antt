-- ===== src/Mempool/Unique.antt =====
-- Draining the pool of blockrock-core/src/mempool.rs does not depend on the order in which its map is
-- iterated.
use mathlib.Core.Path.{ap₂}
use mathlib.Core.Logic.Or
use mathlib.Core.List.{Mem, not-mem-nil, mem-cons_self, eq-or-mem_of_mem-cons, Perm, Pairwise}
use mathlib.Core.List.Perm
use block_rock.Base.{
  ℕ, ◌+◌, ◌≤◌, ◌<◌, ◌≡◌, ◌≢◌, sym, ap, subst, true, List, [], ◌∷◌, Str, All, values, ltb, ltb→lt,
  lt→ltb, length, get_or_zero, arith,
}
use block_rock.Crypto.{Crypto}
use block_rock.Transaction.{Transaction}
use block_rock.Ledger.{LedgerState, Keys}
use block_rock.Mempool.{Mempool, empty, drain, sort, from_sender, sender_nonce_cmp}
use block_rock.Mempool.Order.{
  Precedes, IsSorted, sort-IsSorted, sort-perm, str_cmp_refl, str_cmp→eq, str_cmp_trans,
}
use block_rock.Mempool.Turns.{from_sender_own}
use block_rock.Mempool.Queued.{Queued, PoolOk}

Transaction_set : IsSet Transaction
Transaction_set = hlevel

-- No two have the same sender and the same nonce.
abbrev Apart : Transaction → Transaction → Type 0
Apart t u = t.sender ≡ u.sender → t.nonce ≢ u.nonce

Apart-prop : (t u : Transaction) → IsProp (Apart t u)
Apart-prop t u = hlevel

Apart-symm : (t u : Transaction) → Apart t u → Apart u t
Apart-symm t u h e f = h (sym e) (sym f)

Precedes-antisymm :
    (t u : Transaction) → Precedes t u → Precedes u t → (t.sender ≡ u.sender) × (t.nonce ≡ u.nonce)
unfolding sender_nonce_cmp
Precedes-antisymm t u h k = ground (
  arith,
  str_cmp_trans t.sender u.sender t.sender,
  str_cmp→eq t.sender u.sender,
  str_cmp→eq u.sender t.sender,
  str_cmp_refl t.sender,
)

module _ {P : Transaction → Type 0} (P_prop : (t : Transaction) → IsProp (P t)) where
  All-Mem : {ts : List Transaction} {t : Transaction} → All P ts → Mem t ts → P t
  All-Mem {ts = []} {t} h m = absurd (not-mem-nil m)
  All-Mem {ts = u ∷ ts} {t} h m =
      Or.elim (P_prop t) (eq-or-mem_of_mem-cons m) (λ e. subst P (sym e) h.0)
        (λ n. All-Mem {ts = ts} h.1 n)

Precedes-prop : (t u : Transaction) → IsProp (Precedes t u)
Precedes-prop t u = hlevel

Precedes-refl : (t : Transaction) → Precedes t t
unfolding sender_nonce_cmp
Precedes-refl t = ground (arith, str_cmp_refl t.sender)

Precedes-head :
    {t u : Transaction} {ts us : List Transaction}
    → IsSorted (t ∷ ts)
    → Perm (u ∷ us) (t ∷ ts)
    → Precedes t u
Precedes-head {t} {u} {ts} s p =
    All-Mem {P = Precedes t} (Precedes-prop t) {ts = t ∷ ts} (Precedes-refl t, s.0)
      ((Perm.mem_iff p).0 mem-cons_self)

-- A list whose elements are apart has one sorted permutation.
sorted_unique :
    (ts us : List Transaction)
    → IsSorted ts
    → IsSorted us
    → Perm ts us
    → Pairwise Apart ts
    → ts ≡ us
sorted_unique [] us s s' p apart = Perm.nil-eq p
sorted_unique (t ∷ ts) [] s s' p apart = Perm.eq-nil p
sorted_unique (t ∷ ts) (u ∷ us) s s' p (Pairwise.cons h apart) =
    let le = Precedes-head {ts = ts} {us = us} s (Perm.symm p) in
    let ge = Precedes-head {ts = us} {us = ts} s' p in
    let same = Precedes-antisymm t u le ge in
    let found : Mem u (t ∷ ts) = (Perm.mem_iff p).1 mem-cons_self in
    let heads : u ≡ t =
      Or.elim (Transaction_set u t) (eq-or-mem_of_mem-cons found) (λ e. e)
        (λ m. absurd (h u m same.0 same.1)) in
    let tails = Perm.cons_inv (Perm.trans p (Perm.cons' heads Perm.rfl)) in
    ap₂ ◌∷◌ (sym heads) (sorted_unique ts us s.1 s'.1 tails apart)

module _ ⦃crypto : Crypto⦄ (keys' : Keys) (state : LedgerState) (on_chain : List Str) where
  nonce_below_prop :
      (u : Transaction) (s : Str) (n : ℕ) → IsProp (u.sender ≡ s → ltb u.nonce n ≡ true)
  nonce_below_prop u s n = hlevel

  from_sender-grows :
      (s : Str) (t : Transaction) (ts : List Transaction)
      → length (from_sender s ts) ≤ length (from_sender s (t ∷ ts))
  unfolding from_sender
  from_sender-grows s t ts = ground arith

  head_below :
      (s : Str) (t : Transaction) (ts : List Transaction)
      → t.sender ≡ s
      → t.nonce ≡ get_or_zero t.sender state.nonces + length (from_sender t.sender ts)
      → t.nonce < get_or_zero s state.nonces + length (from_sender s (t ∷ ts))
  head_below s t ts own e =
      let f : t.nonce ≡ get_or_zero s state.nonces + length (from_sender s ts) =
        subst (λ x. t.nonce ≡ get_or_zero x state.nonces + length (from_sender x ts)) own e in
      rw (from_sender_own s t ts own) (omega (arith, f))

  nonce_below :
      (s : Str) (ts : List Transaction) (u : Transaction)
      → Queued keys' state on_chain ts
      → Mem u ts
      → u.sender ≡ s
      → ltb u.nonce (get_or_zero s state.nonces + length (from_sender s ts)) ≡ true
  nonce_below s [] u q m = absurd (not-mem-nil m)
  nonce_below s (t ∷ ts) u q m =
      let bound = get_or_zero s state.nonces + length (from_sender s (t ∷ ts)) in
      Or.elim (nonce_below_prop u s bound) (eq-or-mem_of_mem-cons m)
        (λ e.
          subst (λ (x : Transaction). x.sender ≡ s → ltb x.nonce bound ≡ true) (sym e)
            (λ own. lt→ltb t.nonce bound (head_below s t ts own q.0.in_turn)))
        (λ n own.
          let l =
            ltb→lt u.nonce (get_or_zero s state.nonces + length (from_sender s ts))
              (nonce_below s ts u q.1 n own) in
          lt→ltb u.nonce bound (omega (arith, l, from_sender-grows s t ts)))

  Queued-Apart : (ts : List Transaction) → Queued keys' state on_chain ts → Pairwise Apart ts
  Queued-Apart [] q = Pairwise.nil
  Queued-Apart (t ∷ ts) q =
      Pairwise.cons
        (λ u m own e.
          let l =
            ltb→lt u.nonce (get_or_zero t.sender state.nonces + length (from_sender t.sender ts))
              (nonce_below t.sender ts u q.1 m (sym own)) in
          absurd (omega (arith, l, e, q.0.in_turn)))
        (Queued-Apart ts q.1)

  -- What is drained from a pool that is in order for its chain does not depend on the order in which
  -- its map is iterated: a pool with the same transactions in any other order drains to the same list and to the same empty pool,
  -- so that all nodes with the same pool would seal the same transactions in the same order.
  pub drain-order :
      (pool pool' : Mempool)
      → PoolOk keys' state on_chain pool
      → Perm (values pool'.pending) (values pool.pending)
      → drain pool' ≡ drain pool
  unfolding drain
  drain-order pool pool' ok_pool p =
      let ts = values pool.pending in
      let us = values pool'.pending in
      let apart : Pairwise Apart (sort ts) =
        Perm.pairwise Apart-prop Apart-symm (Perm.symm (sort-perm ts))
          (Queued-Apart ts ok_pool.queued) in
      ap (λ drained. (drained, empty))
        (sym (
          sorted_unique (sort ts) (sort us) (sort-IsSorted ts) (sort-IsSorted us)
            (Perm.trans (sort-perm ts) (Perm.symm (Perm.trans (sort-perm us) p))) apart))
