-- ===== src/Monitoring/Procfs.antt =====
-- The telemetry of zion-core/src/monitoring.rs from /proc/stat and /proc/meminfo. The texts of the two
-- files are arguments, `none` where one cannot be read; they are ASCII, so that white space is a byte. An
-- error is what went wrong with which file.
use block_rock.Base.{
  ℕ, ◌-◌, ◌<◌, ◌≤◌, ◌≡◌, Option, none, some, List, [], ◌∷◌, Str, codes, ◌==◌, ltb, if◌then◌else◌,
  and_then, Result, ok, err, get_elem?, add_u64, arith,
}
use block_rock.Text.{lines_from, lines, split_whitespace, parse_u64}
use block_rock.Monitoring.{Floats, Failure, unreadable, invalid_data, SystemVitals, vitals_of}

unfoldable pub parse_all : List Str → Option (List ℕ)
unfolding parse_u64
parse_all [] = some []
parse_all (w ∷ ws) =
    let rest = parse_all ws in and_then (parse_u64 w) λ n. and_then rest λ ns. some (n ∷ ns)

abbrev sum : List ℕ → ℕ
sum [] = 0
sum (n ∷ ns) = add_u64 n (sum ns)

abbrev or_zero : Option ℕ → ℕ
or_zero none = 0
or_zero (some n) = n

abbrev skip_first : {A : Type 0} → List A → List A
skip_first [] = []
skip_first (x ∷ xs) = xs

-- The part behind the parsing: the total, and the idle time with the time spent waiting.
unfoldable pub totals_of : List ℕ → Result Failure (ℕ × ℕ)
totals_of fields = elim (get_elem? fields 3) [
  | none ↦ err invalid_data
  | some idle ↦ ok (sum fields, add_u64 idle (or_zero (get_elem? fields 4)))
]

unfoldable pub read_cpu_totals : Option Str → Result Failure (ℕ × ℕ)
unfolding lines_from split_whitespace parse_all totals_of
read_cpu_totals none = err unreadable
read_cpu_totals (some text) = elim (parse_all (skip_first (split_whitespace (lines_from text).0))) [
  | none ↦ err invalid_data
  | some fields ↦ totals_of fields
]

-- `a.checked_sub(b)`
abbrev pub checked_sub : ℕ → ℕ → Option ℕ
checked_sub a b = if ltb a b then none else some (a - b)

-- The busy and the total time since the previous reading, if time has passed.
unfoldable pub busy_of_total : ℕ × ℕ → ℕ × ℕ → Option (ℕ × ℕ)
busy_of_total previous now = and_then (checked_sub now.0 previous.0) λ total.
    and_then (checked_sub now.1 previous.1)
      λ idle. if ltb 0 total then some (total - idle, total) else none

module _ {F64 : Type 0} ⦃floats : Floats F64⦄ where
  abbrev whole : ℕ → F64
  whole n = floats.literal n 0

  abbrev percentage : Option (ℕ × ℕ) → F64
  percentage none = whole 0
  percentage (some r) = floats.mul (whole 100) (floats.div (floats.of_u64 r.0) (floats.of_u64 r.1))

  unfoldable pub cpu_usage : Option (ℕ × ℕ) → ℕ × ℕ → F64
  unfolding busy_of_total
  cpu_usage previous now = percentage (and_then previous λ p. busy_of_total p now)

  -- What a line of /proc/meminfo says, behind the earlier ones.
  unfoldable pub note_line : List Str → Option F64 × Option F64 → Option F64 × Option F64
  note_line [] found = found
  note_line (w ∷ []) found = found
  note_line (w ∷ value ∷ ws) (total, available) =
      if w == codes "MemTotal:"
      then (floats.parse value, available)
      else (if w == codes "MemAvailable:" then (total, floats.parse value) else (total, available))

  unfoldable pub note_lines : List Str → Option F64 × Option F64 → Option F64 × Option F64
  unfolding note_line split_whitespace
  note_lines [] found = found
  note_lines (l ∷ ls) found = note_lines ls (note_line (split_whitespace l) found)

  unfoldable pub usage_of : Option F64 → Option F64 → Result Failure F64
  usage_of (some total) (some available) =
      if floats.lt (whole 0) total
      then ok (floats.mul (whole 100) (floats.minus (whole 1) (floats.div available total)))
      else err invalid_data
  usage_of none available = err invalid_data
  usage_of (some total) none = err invalid_data

  unfoldable pub read_memory_usage : Option Str → Result Failure F64
  unfolding lines note_lines usage_of
  read_memory_usage none = err unreadable
  read_memory_usage (some text) =
      let found = note_lines (lines text) (none, none) in usage_of found.0 found.1

  -- `collect`, on the previous totals and the two files.
  unfoldable pub collect :
      Option (ℕ × ℕ) → Option Str → Option Str → Option (ℕ × ℕ) × Result Failure (SystemVitals F64)
  unfolding read_cpu_totals read_memory_usage cpu_usage vitals_of
  collect previous stat meminfo = elim (read_cpu_totals stat) [
    | err e ↦ (previous, err e)
    | ok now ↦ elim (read_memory_usage meminfo) [
      | err e ↦ (some now, err e)
      | ok memory ↦ (some now, ok (vitals_of (cpu_usage previous now) memory (whole 0) (whole 0)))
    ]
  ]

-- The share of the processor is one of a time that has passed, and is at most all of it.
busy_of_total-le :
    (previous now : ℕ × ℕ) {r : ℕ × ℕ}
    → busy_of_total previous now ≡ some r
    → (r.0 ≤ r.1) × (0 < r.1) × (r.1 ≡ now.0 - previous.0)
unfolding busy_of_total
busy_of_total-le previous now {r} h = ground arith
