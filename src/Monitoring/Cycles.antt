-- ===== src/Monitoring/Cycles.antt =====
-- What `Hypothalamus::evaluate` of zion-core/src/monitoring.rs asks for, read off the samples so far.
-- The samples stand in a list, the latest first.
use native.Mathlib.Nat.{suc-mod, mod-lt, mod_self, mod-eq_of_lt}
use block_rock.Base.{
  ℕ, suc, ◌%◌, ◌≤◌, ◌<◌, ◌≡◌, refl, sym, ap, subst, Bool, true, false, not, ◌&&◌, Bool-cases, inl,
  inr, List, [], ◌∷◌, leb, nat_eq, ltb, ltb→lt, ltb→le, ◌∙◌, ◌⊎◌, if◌then◌else◌, max,
  saturating_add_u32, u32_mod, arith,
}
use block_rock.Monitoring.{
  Floats, MetabolicAction, maintain, hypertrophy, atrophy, SystemVitals, HypothalamusConfig,
  Hypothalamus, new, calculate_system_stress, is_stressed, is_relaxed, count_cycles, evaluate,
}

-- How many of the latest samples in a row pass a test.
unfoldable pub streak {ℓ} : {V : Type ℓ} → (V → Bool) → List V → ℕ
streak test [] = 0
streak test (v ∷ vs) = let rest = streak test vs in if test v then suc rest else 0

-- Whether the streak fills a number of cycles.
unfoldable pub completes : ℕ → ℕ → Bool
unfolding max
completes streak cycles = nat_eq (streak % max cycles 1) 0

mod_step :
    (k d : ℕ)
    → 1 ≤ d
    → ((suc (k % d) < d) × (suc k % d ≡ suc (k % d))) ⊎ ((suc (k % d) ≡ d) × (suc k % d ≡ 0))
mod_step k d h = elim (Bool-cases (ltb (suc (k % d)) d)) [
  | inl less ↦ let l = ltb→lt (suc (k % d)) d less in inl (l, suc-mod k d ∙ mod-eq_of_lt l)
  | inr more ↦
      let e : suc (k % d) ≡ d = omega (arith, ltb→le (suc (k % d)) d more, mod-lt k {m = d} h) in
      inr (e, suc-mod k d ∙ ap (λ x. x % d) e ∙ mod_self d)
]

max_bounds : (m : ℕ) → m < u32_mod → (1 ≤ max m 1) × (max m 1 < u32_mod)
unfolding max
max_bounds m h = ground arith

saturating_add_u32_lem : (c : ℕ) → suc c < u32_mod → saturating_add_u32 c 1 ≡ suc c
unfolding saturating_add_u32
saturating_add_u32_lem c h = ground arith

record Counted (c m k : ℕ) : Type 0 where
  full : leb (max m 1) (saturating_add_u32 c 1) ≡ completes (suc k) m
  restart : completes (suc k) m ≡ true → 0 ≡ suc k % max m 1
  go_on : completes (suc k) m ≡ false → saturating_add_u32 c 1 ≡ suc k % max m 1

count_lem : (c m k : ℕ) → c ≡ k % max m 1 → m < u32_mod → Counted c m k
unfolding completes
count_lem c m k e small =
    let b = max_bounds m small in
    let r = mod-lt k {m = max m 1} b.0 in
    let a = saturating_add_u32_lem c (omega (arith, e, r, b.1)) in
    elim (mod_step k (max m 1) b.0) [
      | inl (l, f) ↦ record {
        full = ground (arith, e, a, f, l);
        restart = λ h. ground (arith, f);
        go_on = λ h. ground (arith, e, a, f);
      }
      | inr (l, f) ↦ record {
        full = ground (arith, e, a, f, l);
        restart = λ h. sym f;
        go_on = λ h. ground (arith, f);
      }
    ]

abbrev with_config : {F64 : Type 0} → HypothalamusConfig F64 → Hypothalamus F64 → Hypothalamus F64
with_config c h = record h { config = c }

module _ {F64 : Type 0} ⦃floats : Floats F64⦄ (config : HypothalamusConfig F64) where
  abbrev stressed : SystemVitals F64 → Bool
  stressed v = is_stressed (new config) v

  abbrev relaxed : SystemVitals F64 → Bool
  relaxed v = not (stressed v) && is_relaxed (new config) v

  -- The policy behind the samples.
  unfoldable pub evaluated : List (SystemVitals F64) → Hypothalamus F64
  unfolding evaluate
  evaluated [] = new config
  evaluated (v ∷ vs) = (evaluate (evaluated vs) v).0

  -- What the latest sample asks for, by the samples alone: more capacity when it completes another
  -- full run of stressed samples, less when it completes one of relaxed samples.
  unfoldable pub decision : List (SystemVitals F64) → MetabolicAction
  decision [] = maintain
  decision (v ∷ vs) =
      if stressed v
      then (if completes (streak stressed (v ∷ vs)) config.sustained_stress_cycles
          then hypertrophy
          else maintain)
      else (if relaxed v
          then (if completes (streak relaxed (v ∷ vs)) config.sustained_relaxation_cycles
              then atrophy
              else maintain)
          else maintain)

  pub record Tallies (h : Hypothalamus F64) (vs : List (SystemVitals F64)) : Type 0 where
    pub same : h.config ≡ config
    pub stress : h.stress_cycles ≡ streak stressed vs % max config.sustained_stress_cycles 1
    pub relaxation :
        h.relaxation_cycles ≡ streak relaxed vs % max config.sustained_relaxation_cycles 1

  module _ (small_stress : config.sustained_stress_cycles < u32_mod)
      (small_relaxation : config.sustained_relaxation_cycles < u32_mod) where
    zero_tally : (m : ℕ) → m < u32_mod → 0 ≡ 0 % max m 1
    zero_tally m h = sym (mod-eq_of_lt (max_bounds m h).0)

    abbrev with_counts : ℕ → ℕ → Hypothalamus F64
    with_counts c r = record { config = config; stress_cycles = c; relaxation_cycles = r }

    same_test :
        (c r : ℕ) (v : SystemVitals F64)
        → (is_stressed (with_counts c r) v ≡ stressed v)
          × (is_relaxed (with_counts c r) v ≡ is_relaxed (new config) v)
    unfolding is_stressed is_relaxed calculate_system_stress
    same_test c r v = (refl, refl)

    streak_on :
        (test : SystemVitals F64 → Bool) (v : SystemVitals F64) (vs : List (SystemVitals F64))
        → test v ≡ true
        → streak test (v ∷ vs) ≡ suc (streak test vs)
    unfolding streak
    streak_on test v vs e = rw e refl

    streak_off :
        (test : SystemVitals F64 → Bool) (v : SystemVitals F64) (vs : List (SystemVitals F64))
        → test v ≡ false
        → streak test (v ∷ vs) ≡ 0
    unfolding streak
    streak_off test v vs e = rw e refl

    count_cycles-stressed :
        (c r : ℕ) (v : SystemVitals F64) (vs : List (SystemVitals F64))
        → Tallies (with_counts c r) vs
        → stressed v ≡ true
        → Tallies (count_cycles (with_counts c r) v).0 (v ∷ vs)
          × ((count_cycles (with_counts c r) v).1 ≡ decision (v ∷ vs))
    unfolding count_cycles decision
    count_cycles-stressed c r v vs t e =
        let n = config.sustained_stress_cycles in
        let k = streak stressed vs in
        let l = count_lem c n k t.stress small_stress in
        let on = streak_on stressed v vs e in
        let off = streak_off relaxed v vs (ap (λ b. not b && is_relaxed (new config) v) e) in
        let test = (same_test c r v).0 ∙ e in
        let z = zero_tally config.sustained_relaxation_cycles small_relaxation in
        elim (Bool-cases (completes (suc k) n)) [
          | inl full ↦
              rw (test, l.full ∙ full, count_cycles)
                (
                  record { same = refl; stress = rw on (l.restart full); relaxation = rw off z },
                  rw (on, full) refl,
                )
          | inr more ↦
              rw (test, l.full ∙ more, count_cycles)
                (
                  record { same = refl; stress = rw on (l.go_on more); relaxation = rw off z },
                  rw (on, more) refl,
                )
        ]

    count_cycles-relaxed :
        (c r : ℕ) (v : SystemVitals F64) (vs : List (SystemVitals F64))
        → Tallies (with_counts c r) vs
        → stressed v ≡ false
        → is_relaxed (new config) v ≡ true
        → Tallies (count_cycles (with_counts c r) v).0 (v ∷ vs)
          × ((count_cycles (with_counts c r) v).1 ≡ decision (v ∷ vs))
    unfolding count_cycles decision
    count_cycles-relaxed c r v vs t e f =
        let n = config.sustained_relaxation_cycles in
        let k = streak relaxed vs in
        let l = count_lem r n k t.relaxation small_relaxation in
        let now : relaxed v ≡ true = rw (e, f) refl in
        let on = streak_on relaxed v vs now in
        let off = streak_off stressed v vs e in
        let test = (same_test c r v).0 ∙ e in
        let test' = (same_test c r v).1 ∙ f in
        let z = zero_tally config.sustained_stress_cycles small_stress in
        elim (Bool-cases (completes (suc k) n)) [
          | inl full ↦
              rw (test, test', l.full ∙ full, count_cycles)
                (
                  record { same = refl; stress = rw off z; relaxation = rw on (l.restart full) },
                  rw (on, full) refl,
                )
          | inr more ↦
              rw (test, test', l.full ∙ more, count_cycles)
                (
                  record { same = refl; stress = rw off z; relaxation = rw on (l.go_on more) },
                  rw (on, more) refl,
                )
        ]

    count_cycles-between :
        (c r : ℕ) (v : SystemVitals F64) (vs : List (SystemVitals F64))
        → stressed v ≡ false
        → is_relaxed (new config) v ≡ false
        → Tallies (count_cycles (with_counts c r) v).0 (v ∷ vs)
          × ((count_cycles (with_counts c r) v).1 ≡ decision (v ∷ vs))
    unfolding count_cycles decision
    count_cycles-between c r v vs e f =
        let now : relaxed v ≡ false = rw (e, f) refl in
        let off = streak_off stressed v vs e in
        let off' = streak_off relaxed v vs now in
        let test = (same_test c r v).0 ∙ e in
        let test' = (same_test c r v).1 ∙ f in
        let z = zero_tally config.sustained_stress_cycles small_stress in
        let z' = zero_tally config.sustained_relaxation_cycles small_relaxation in
        rw (test, test', count_cycles)
          (record { same = refl; stress = rw off z; relaxation = rw off' z' }, refl)

    count_cycles-Tallies :
        (h : Hypothalamus F64) (v : SystemVitals F64) (vs : List (SystemVitals F64))
        → Tallies h vs
        → Tallies (count_cycles h v).0 (v ∷ vs) × ((count_cycles h v).1 ≡ decision (v ∷ vs))
    count_cycles-Tallies h v vs t =
        let same : with_counts h.stress_cycles h.relaxation_cycles ≡ h =
          ap (λ c. with_config c h) (sym t.same) in
        let t' : Tallies (with_counts h.stress_cycles h.relaxation_cycles) vs = record {
          same = refl;
          stress = t.stress;
          relaxation = t.relaxation;
        } in
        subst
          (λ x. Tallies (count_cycles x v).0 (v ∷ vs) × ((count_cycles x v).1 ≡ decision (v ∷ vs)))
          same
          (elim (Bool-cases (stressed v)) [
            | inl e ↦ count_cycles-stressed h.stress_cycles h.relaxation_cycles v vs t' e
            | inr e ↦ elim (Bool-cases (is_relaxed (new config) v)) [
              | inl f ↦ count_cycles-relaxed h.stress_cycles h.relaxation_cycles v vs t' e f
              | inr f ↦ count_cycles-between h.stress_cycles h.relaxation_cycles v vs e f
            ]
          ])

    evaluated-Tallies : (vs : List (SystemVitals F64)) → Tallies (evaluated vs) vs
    unfolding evaluated evaluate streak
    evaluated-Tallies [] = record {
      same = refl;
      stress = zero_tally config.sustained_stress_cycles small_stress;
      relaxation = zero_tally config.sustained_relaxation_cycles small_relaxation;
    }
    evaluated-Tallies (v ∷ vs) = (count_cycles-Tallies (evaluated vs) v vs (evaluated-Tallies vs)).0

    -- With cycle counts that are u32 values, the action of each evaluation is the one that the samples so
    -- far call for: more capacity exactly when the latest sample completes a run of stressed samples that
    -- is a multiple of the configured number of cycles (of 1, if that is 0), less capacity likewise for
    -- relaxed samples, and otherwise no change. Whatever the floating-point operations return.
    pub evaluate-action :
        (v : SystemVitals F64) (vs : List (SystemVitals F64))
        → (evaluate (evaluated vs) v).1.action ≡ decision (v ∷ vs)
    unfolding evaluate
    evaluate-action v vs = (count_cycles-Tallies (evaluated vs) v vs (evaluated-Tallies vs)).1
