-- ===== src/Monitoring.antt =====
-- zion-core/src/monitoring.rs: the policy that asks for more or less capacity, the gate that lets only
-- changes of its decision through, and the rounds of the loop. The arithmetic of f64 is a parameter;
-- NaN is one of its values, so nothing is assumed of its comparisons.
pub mod Procfs
pub mod Cycles
pub mod Notices
use block_rock.Base.{
  ℕ, Bool, true, false, not, Option, none, some, List, [], ◌∷◌, Str, leb, if◌then◌else◌, max,
  saturating_add_u32, Result, ok, err,
}

-- The operations of f64 that the source uses. `literal m k` is the literal `m / 10 ^ k`, `of_u64` the
-- cast `as f64`, `parse` is `str::parse::<f64>().ok()`, and `lt` and `le` are `<` and `<=`.
pub record Floats (F64 : Type 0) : Type 0 where
  pub literal : ℕ → ℕ → F64
  pub of_u64 : ℕ → F64
  pub parse : Str → Option F64
  pub add : F64 → F64 → F64
  pub mul : F64 → F64 → F64
  pub div : F64 → F64 → F64
  pub minus : F64 → F64 → F64
  pub fmin : F64 → F64 → F64
  pub fmax : F64 → F64 → F64
  pub lt : F64 → F64 → Bool
  pub le : F64 → F64 → Bool

pub data MetabolicAction : Type 0 where
  maintain hypertrophy atrophy : MetabolicAction

-- `==` on the actions
unfoldable pub same_action : MetabolicAction → MetabolicAction → Bool
same_action maintain maintain = true
same_action hypertrophy hypertrophy = true
same_action atrophy atrophy = true
same_action maintain hypertrophy = false
same_action maintain atrophy = false
same_action hypertrophy maintain = false
same_action hypertrophy atrophy = false
same_action atrophy maintain = false
same_action atrophy hypertrophy = false

pub record SystemVitals (F64 : Type 0) : Type 0 where
  pub cpu_usage : F64
  pub memory_usage : F64
  pub latency_ms : F64
  pub error_rate : F64

pub record HypothalamusConfig (F64 : Type 0) : Type 0 where
  pub stress_threshold : F64
  pub relaxation_threshold : F64
  pub latency_threshold_ms : F64
  pub error_rate_weight : F64
  pub sustained_stress_cycles : ℕ
  pub sustained_relaxation_cycles : ℕ

pub record MetabolicStatus (F64 : Type 0) : Type 0 where
  pub action : MetabolicAction
  pub stress_score : F64
  pub stress_cycles : ℕ
  pub relaxation_cycles : ℕ
  pub vitals : SystemVitals F64

pub record Hypothalamus (F64 : Type 0) : Type 0 where
  pub config : HypothalamusConfig F64
  pub stress_cycles : ℕ
  pub relaxation_cycles : ℕ

-- `ChangeGate::default()` holds `none`.
pub record ChangeGate : Type 0 where
  pub last : Option MetabolicAction

abbrev is_last : Option MetabolicAction → MetabolicAction → Bool
is_last none action = false
is_last (some last) action = same_action last action

unfoldable pub should_notify : ChangeGate → MetabolicAction → ChangeGate × Bool
should_notify gate action = (record { last = some action }, not (is_last gate.last action))

module _ {F64 : Type 0} where
  -- `Hypothalamus::new`
  abbrev pub new : HypothalamusConfig F64 → Hypothalamus F64
  new config = record { config = config; stress_cycles = 0; relaxation_cycles = 0 }

  module _ ⦃floats : Floats F64⦄ where
    abbrev whole : ℕ → F64
    whole n = floats.literal n 0

    -- `x.clamp(min, max)` of the standard library
    abbrev clamp : F64 → F64 → F64 → F64
    clamp x lo hi = let y = if floats.lt x lo then lo else x in if floats.lt hi y then hi else y

    -- `SystemVitals::new`
    unfoldable pub vitals_of : F64 → F64 → F64 → F64 → SystemVitals F64
    vitals_of cpu_usage memory_usage latency_ms error_rate = record {
      cpu_usage = clamp cpu_usage (whole 0) (whole 100);
      memory_usage = clamp memory_usage (whole 0) (whole 100);
      latency_ms = floats.fmax latency_ms (whole 0);
      error_rate = floats.fmax error_rate (whole 0);
    }

    -- `HypothalamusConfig::default()`
    abbrev pub default_config : HypothalamusConfig F64
    default_config = record {
      stress_threshold = whole 85;
      relaxation_threshold = whole 20;
      latency_threshold_ms = whole 100;
      error_rate_weight = whole 10;
      sustained_stress_cycles = 5;
      sustained_relaxation_cycles = 5;
    }

    -- `MetabolicStatus::default()`
    unfoldable pub initial_status : MetabolicStatus F64
    unfolding vitals_of
    initial_status = record {
      action = maintain;
      stress_score = whole 0;
      stress_cycles = 0;
      relaxation_cycles = 0;
      vitals = vitals_of (whole 0) (whole 0) (whole 0) (whole 0);
    }

    unfoldable pub calculate_system_stress : Hypothalamus F64 → SystemVitals F64 → F64
    calculate_system_stress h v =
        let latency_penalty =
          if floats.lt h.config.latency_threshold_ms v.latency_ms then whole 20 else whole 0 in
        floats.fmin
          (floats.add
            (floats.add
              (floats.add (floats.mul v.cpu_usage (floats.literal 4 1))
                (floats.mul v.memory_usage (floats.literal 4 1)))
              latency_penalty)
            (floats.mul v.error_rate h.config.error_rate_weight))
          (whole 100)

    unfoldable pub is_stressed : Hypothalamus F64 → SystemVitals F64 → Bool
    unfolding calculate_system_stress
    is_stressed h v = floats.le h.config.stress_threshold (calculate_system_stress h v)

    unfoldable pub is_relaxed : Hypothalamus F64 → SystemVitals F64 → Bool
    unfolding calculate_system_stress
    is_relaxed h v = floats.le (calculate_system_stress h v) h.config.relaxation_threshold

    -- The counters after a sample, and the action.
    unfoldable pub count_cycles :
        Hypothalamus F64 → SystemVitals F64 → Hypothalamus F64 × MetabolicAction
    unfolding is_stressed is_relaxed saturating_add_u32 max
    count_cycles h v =
        if is_stressed h v
        then (let n = saturating_add_u32 h.stress_cycles 1 in
            if leb (max h.config.sustained_stress_cycles 1) n
            then (record h { stress_cycles = 0; relaxation_cycles = 0 }, hypertrophy)
            else (record h { stress_cycles = n; relaxation_cycles = 0 }, maintain))
        else (if is_relaxed h v
            then (let n = saturating_add_u32 h.relaxation_cycles 1 in
                if leb (max h.config.sustained_relaxation_cycles 1) n
                then (record h { stress_cycles = 0; relaxation_cycles = 0 }, atrophy)
                else (record h { stress_cycles = 0; relaxation_cycles = n }, maintain))
            else (record h { stress_cycles = 0; relaxation_cycles = 0 }, maintain))

    unfoldable pub evaluate :
        Hypothalamus F64 → SystemVitals F64 → Hypothalamus F64 × MetabolicStatus F64
    unfolding count_cycles calculate_system_stress
    evaluate h v =
        let (h', action) = count_cycles h v in
        (
          h',
          record {
            action = action;
            stress_score = calculate_system_stress h v;
            stress_cycles = h'.stress_cycles;
            relaxation_cycles = h'.relaxation_cycles;
            vitals = v;
          },
        )

-- `io::Error` of a source: a file cannot be read, or is not what is expected.
pub data Failure : Type 0 where
  unreadable invalid_data : Failure

-- What the loop keeps: its policy, its gate, the status that it publishes, and what it sent to the
-- webhook, the latest first.
pub record Monitor (F64 : Type 0) : Type 0 where
  pub hypothalamus : Hypothalamus F64
  pub gate : ChangeGate
  pub status : MetabolicStatus F64
  pub notified : List (MetabolicStatus F64)

module _ {F64 : Type 0} ⦃floats : Floats F64⦄ (has_webhook : Bool) where
  -- `if let Some(webhook)` and the gate. What the webhook answers changes nothing.
  unfoldable pub notify_change : MetabolicStatus F64 → Monitor F64 → Monitor F64
  unfolding should_notify
  notify_change next m =
      if has_webhook
      then (let (gate, changed) = should_notify m.gate next.action in
          if changed
          then record m { gate = gate; notified = next ∷ m.notified }
          else record m { gate = gate })
      else m

  -- One round of the loop, with what the source of the vitals returned.
  unfoldable pub monitor_round : Result Failure (SystemVitals F64) → Monitor F64 → Monitor F64
  unfolding evaluate notify_change
  monitor_round (err e) m = m
  monitor_round (ok vitals) m =
      let (h, next) = evaluate m.hypothalamus vitals in
      record (notify_change next (record m { hypothalamus = h })) { status = next }
