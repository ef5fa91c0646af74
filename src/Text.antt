-- ===== src/Text.antt =====
-- The functions of `str` that the monitoring, the configuration and the interfaces of zion-core call,
-- on ASCII text, where white space is a byte.
pub mod Trim
pub mod Decimal
use block_rock.Base.{
  ℕ, ◌+◌, ◌-◌, ◌*◌, Bool, false, ◌&&◌, ◌||◌, Option, none, some, List, [], ◌∷◌, Str, leb, ltb,
  nat_eq, if◌then◌else◌, u64_mod,
}

-- `char::is_whitespace` on ASCII
unfoldable pub is_whitespace : ℕ → Bool
is_whitespace c = nat_eq c 32 || leb 9 c && leb c 13

abbrev push_word : Str → List Str → List Str
push_word [] words = words
push_word (c ∷ cs) words = (c ∷ cs) ∷ words

-- The word that a text starts with, and the words behind it.
unfoldable pub words_from : Str → Str × List Str
unfolding is_whitespace
words_from [] = ([], [])
words_from (c ∷ cs) =
    let rest = words_from cs in
    if is_whitespace c then ([], push_word rest.0 rest.1) else (c ∷ rest.0, rest.1)

unfoldable pub split_whitespace : Str → List Str
unfolding words_from
split_whitespace text = let r = words_from text in push_word r.0 r.1

-- The line that a text starts with, and the lines behind it. A carriage return at the end of a line
-- stays here: it is white space.
unfoldable pub lines_from : Str → Str × List Str
lines_from [] = ([], [])
lines_from (c ∷ cs) =
    let rest = lines_from cs in if nat_eq c 10 then ([], rest.0 ∷ rest.1) else (c ∷ rest.0, rest.1)

unfoldable pub lines : Str → List Str
unfolding lines_from
lines text = let r = lines_from text in r.0 ∷ r.1

abbrev is_digit : ℕ → Bool
is_digit c = leb 48 c && leb c 57

-- The digits behind those of a number so far, which has to stay below a bound.
unfoldable pub digits_from : ℕ → ℕ → Str → Option ℕ
digits_from bound n [] = some n
digits_from bound n (c ∷ cs) =
    let rest = digits_from bound (n * 10 + (c - 48)) cs in
    if is_digit c && ltb (n * 10 + (c - 48)) bound then rest else none

-- `str::parse` to an unsigned integer below a bound
unfoldable pub parse_below : ℕ → Str → Option ℕ
unfolding digits_from
parse_below bound [] = none
parse_below bound (c ∷ []) = digits_from bound 0 (c ∷ [])
parse_below bound (c ∷ d ∷ ds) =
    if nat_eq c 43 then digits_from bound 0 (d ∷ ds) else digits_from bound 0 (c ∷ d ∷ ds)

unfoldable pub parse_u64 : Str → Option ℕ
unfolding parse_below
parse_u64 text = parse_below u64_mod text

unfoldable pub trim_start : Str → Str
unfolding is_whitespace
trim_start [] = []
trim_start (c ∷ cs) = let rest = trim_start cs in if is_whitespace c then rest else c ∷ cs

abbrev is_blank : Bool → Str → Bool
is_blank space [] = space
is_blank space (c ∷ cs) = false

unfoldable pub trim_end : Str → Str
unfolding is_whitespace
trim_end [] = []
trim_end (c ∷ cs) =
    let rest = trim_end cs in if is_blank (is_whitespace c) rest then [] else c ∷ rest

unfoldable pub trim : Str → Str
unfolding trim_start trim_end
trim text = trim_end (trim_start text)

-- The part before the first separator, and the parts behind it.
unfoldable pub parts_from : ℕ → Str → Str × List Str
parts_from separator [] = ([], [])
parts_from separator (c ∷ cs) =
    let rest = parts_from separator cs in
    if nat_eq c separator then ([], rest.0 ∷ rest.1) else (c ∷ rest.0, rest.1)

-- `text.split(separator)`
unfoldable pub split : ℕ → Str → List Str
unfolding parts_from
split separator text = let r = parts_from separator text in r.0 ∷ r.1

abbrev behind : ℕ → Option (Str × Str) → Option (Str × Str)
behind c none = none
behind c (some r) = some (c ∷ r.0, r.1)

-- `text.split_once(separator)`
unfoldable pub split_once : ℕ → Str → Option (Str × Str)
split_once separator [] = none
split_once separator (c ∷ cs) =
    let rest = split_once separator cs in
    if nat_eq c separator then some ([], cs) else behind c rest
