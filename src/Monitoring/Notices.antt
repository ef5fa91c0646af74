-- ===== src/Monitoring/Notices.antt =====
-- What the webhook of zion-core/src/monitoring.rs hears of the decisions.
use block_rock.Base.{
  ◌≡◌, ◌≢◌, ◌⊎◌, refl, sym, ◌∙◌, ap, subst, true, false, Bool-cases, inl, inr, Option, none, some,
  List, [], ◌∷◌, map, Result, ok, err, first?,
}
use block_rock.Monitoring.{
  Floats, Failure, MetabolicAction, maintain, hypertrophy, atrophy, same_action, SystemVitals,
  HypothalamusConfig, MetabolicStatus, new, initial_status, should_notify, evaluate, Monitor,
  notify_change, monitor_round, is_last,
}

same_action-true : (a b : MetabolicAction) → same_action a b ≡ true → a ≡ b
unfolding same_action
same_action-true maintain maintain h = refl
same_action-true hypertrophy hypertrophy h = refl
same_action-true atrophy atrophy h = refl
same_action-true maintain hypertrophy h = cc
same_action-true maintain atrophy h = cc
same_action-true hypertrophy maintain h = cc
same_action-true hypertrophy atrophy h = cc
same_action-true atrophy maintain h = cc
same_action-true atrophy hypertrophy h = cc

same_action_refl : (a : MetabolicAction) → same_action a a ≡ true
unfolding same_action
same_action_refl maintain = refl
same_action_refl hypertrophy = refl
same_action_refl atrophy = refl

-- No action is followed by itself.
abbrev pub Alternating : List MetabolicAction → Type 0
Alternating [] = Unit
Alternating (a ∷ []) = Unit
Alternating (a ∷ b ∷ as') = (a ≢ b) × Alternating (b ∷ as')

is_last-true :
    (last : Option MetabolicAction) (a : MetabolicAction) → is_last last a ≡ true → last ≡ some a
is_last-true none a h = cc
is_last-true (some b) a h = ap some (same_action-true b a h)

is_last-false : (b a : MetabolicAction) → is_last (some b) a ≡ false → a ≢ b
is_last-false b a h e = let t : same_action b a ≡ true = rw e (same_action_refl b) in cc

Alternating-cons :
    (last : Option MetabolicAction) (a : MetabolicAction) (bs : List MetabolicAction)
    → first? bs ≡ last
    → is_last last a ≡ false
    → Alternating bs
    → Alternating (a ∷ bs)
Alternating-cons last a [] e h t = tt
Alternating-cons last a (b ∷ bs) e h t =
    (is_last-false b a (subst (λ x. is_last x a ≡ false) (sym e) h), t)

module _ {F64 : Type 0} ⦃floats : Floats F64⦄ where
  abbrev pub notices : Monitor F64 → List MetabolicAction
  notices m = map (λ s. s.action) m.notified

  -- Rounds of the loop with a webhook, from its start.
  pub data MonitorReach (config : HypothalamusConfig F64) : Monitor F64 → Type 0 where
    started : MonitorReach config (record {
      hypothalamus = new config;
      gate = record { last = none };
      status = initial_status;
      notified = [];
    })
    round :
        {m : Monitor F64} (collected : Result Failure (SystemVitals F64))
        → MonitorReach config m
        → MonitorReach config (monitor_round true collected m)

  pub record Told (m : Monitor F64) : Type 0 where
    pub latest : first? (notices m) ≡ m.gate.last
    pub apart : Alternating (notices m)

  pub record UpToDate (m : Monitor F64) : Type 0 where
    pub told : Told m
    pub current : (m.gate.last ≡ some m.status.action) ⊎ (m.status ≡ initial_status)

  notify_change-Told :
      (next : MetabolicStatus F64) (m : Monitor F64)
      → Told m
      → Told (notify_change true next m)
        × ((notify_change true next m).gate.last ≡ some next.action)
  unfolding notify_change should_notify
  notify_change-Told next m t = elim (Bool-cases (is_last m.gate.last next.action)) [
    | inl same ↦
        let e = is_last-true m.gate.last next.action same in
        rw same (record { latest = t.latest ∙ e; apart = t.apart }, refl)
    | inr other ↦ rw other (
      record {
        latest = refl;
        apart = Alternating-cons m.gate.last next.action (notices m) t.latest other t.apart;
      },
      refl,
    )
  ]

  monitor_round-UpToDate :
      (collected : Result Failure (SystemVitals F64)) (m : Monitor F64)
      → UpToDate m
      → UpToDate (monitor_round true collected m)
  unfolding monitor_round
  monitor_round-UpToDate (err e) m u = u
  monitor_round-UpToDate (ok v) m u =
      let next = (evaluate m.hypothalamus v).1 in
      let m' : Monitor F64 = record m { hypothalamus = (evaluate m.hypothalamus v).0 } in
      let (t, e) =
        notify_change-Told next m' (record { latest = u.told.latest; apart = u.told.apart }) in
      record { told = record { latest = t.latest; apart = t.apart }; current = inl e }

  MonitorReach-UpToDate :
      {config : HypothalamusConfig F64} {m : Monitor F64} → MonitorReach config m → UpToDate m
  MonitorReach-UpToDate started = record {
    told = record { latest = refl; apart = tt };
    current = inr refl;
  }
  MonitorReach-UpToDate (round {m = m} collected before) =
      monitor_round-UpToDate collected m (MonitorReach-UpToDate before)

  latest_notice :
      {m : Monitor F64}
      → UpToDate m
      → (first? (notices m) ≡ some m.status.action) ⊎ (m.status ≡ initial_status)
  latest_notice u = elim u.current [ inl e ↦ inl (u.told.latest ∙ e) | inr e ↦ inr e ]

  -- In every state of the monitoring loop with a webhook, no notice that was sent repeats the one before
  -- it, and the latest tells the action of the status that is published, unless that is still the one
  -- that the loop starts with.
  pub MonitorReach-notices :
      {config : HypothalamusConfig F64} {m : Monitor F64}
      → MonitorReach config m
      → Alternating (notices m)
        × ((first? (notices m) ≡ some m.status.action) ⊎ (m.status ≡ initial_status))
  MonitorReach-notices r = let u = MonitorReach-UpToDate r in (u.told.apart, latest_notice u)
