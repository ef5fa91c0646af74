-- ===== src/Base/Maps.antt =====
-- `HashMap<String, V>` and `HashSet<String>`. Their iteration order is not specified, so a map is an
-- association list, the latest insertion first; `insert` and `remove` keep each key once.
use Prim.Native.Nat.{ℕ, suc, ◌+◌, ◌≤◌}
use mathlib.Core.Path.{◌≡◌, refl, ap}
use mathlib.Core.Logic.{◌≢◌}
use mathlib.Core.Bool.{Bool, true, false, ◌||◌}
use mathlib.Core.Option.{Option, none, some}
use mathlib.Core.List.{List, [], ◌∷◌, map}
use native.Mathlib.Omega.{arith}
use block_rock.Base.Lists.{length}
use block_rock.Base.Tests.{if◌then◌else◌}
use block_rock.Base.Strings.{Str, ◌==◌}

abbrev pub Map {ℓ} : Type ℓ → Type ℓ
Map V = List (Str × V)

module _ {ℓ} {V : Type ℓ} where
  unfoldable pub get : Str → Map V → Option V
  get k [] = none
  get k ((j, v) ∷ m) = if j == k then some v else get k m

  unfoldable pub contains_key : Str → Map V → Bool
  contains_key k [] = false
  contains_key k ((j, v) ∷ m) = j == k || contains_key k m

  unfoldable pub remove : Str → Map V → Map V
  remove k [] = []
  remove k ((j, v) ∷ m) = if j == k then m else (j, v) ∷ remove k m

  unfoldable pub insert : Str → V → Map V → Map V
  unfolding remove
  insert k v m = (k, v) ∷ remove k m

  abbrev pub values : Map V → List V
  values = map λ e. e.1

  abbrev pub keys : Map V → List Str
  keys = map λ e. e.0

  get-remove_ne : (j k : Str) (m : Map V) → j ≢ k → get j (remove k m) ≡ get j m
  unfolding get remove
  get-remove_ne j k [] h = refl
  get-remove_ne j k (e ∷ m) h = ground (arith, get-remove_ne j k m)

  pub get-insert :
      (j k : Str) (v : V) (m : Map V) → get j (insert k v m) ≡ (if k == j then some v else get j m)
  unfolding get insert
  get-insert j k v m = ground (arith, get-remove_ne j k m)

  pub get-insert_self : (k : Str) (v : V) (m : Map V) → get k (insert k v m) ≡ some v
  unfolding get insert
  get-insert_self k v m = ground arith

  pub get-insert_ne : (j k : Str) (v : V) (m : Map V) → j ≢ k → get j (insert k v m) ≡ get j m
  get-insert_ne j k v m h = ground (arith, get-insert j k v m)

  remove_absent : (k : Str) (m : Map V) → get k m ≡ none → remove k m ≡ m
  unfolding get remove
  remove_absent k [] h = refl
  remove_absent k (e ∷ m) h = ground (arith, remove_absent k m)

  -- To insert a new key and remove it again changes nothing.
  pub remove-insert : (k : Str) (v : V) (m : Map V) → get k m ≡ none → remove k (insert k v m) ≡ m
  unfolding remove insert
  remove-insert k v m h = ground (arith, remove_absent k m)

  pub insert_absent : (k : Str) (v : V) (m : Map V) → get k m ≡ none → insert k v m ≡ (k, v) ∷ m
  unfolding insert
  insert_absent k v m h = ground (arith, remove_absent k m)

  pub contains_key-true : (k : Str) (m : Map V) (v : V) → get k m ≡ some v → contains_key k m ≡ true
  unfolding get contains_key
  contains_key-true k [] v h = cc
  contains_key-true k (e ∷ m) v h = ground (arith, contains_key-true k m v)

  pub contains_key-false : (k : Str) (m : Map V) → contains_key k m ≡ false → get k m ≡ none
  unfolding get contains_key
  contains_key-false k [] h = refl
  contains_key-false k (e ∷ m) h = ground (arith, contains_key-false k m)

-- `map.get(k).copied().unwrap_or(0)`
abbrev or_zero : Option ℕ → ℕ
or_zero none = 0
or_zero (some n) = n

unfoldable pub get_or_zero : Str → Map ℕ → ℕ
get_or_zero k m = or_zero (get k m)

pub get_or_zero-insert :
    (j k : Str) (v : ℕ) (m : Map ℕ)
    → get_or_zero j (insert k v m) ≡ (if k == j then v else get_or_zero j m)
unfolding get_or_zero
get_or_zero-insert j k v m = ground (arith, get-insert j k v m)

-- The sum of the values.
unfoldable pub total : Map ℕ → ℕ
total [] = 0
total ((k, v) ∷ m) = v + total m

total-remove : (k : Str) (m : Map ℕ) → total (remove k m) + get_or_zero k m ≡ total m
unfolding total remove get_or_zero get
total-remove k [] = refl
total-remove k (e ∷ m) = ground (arith, total-remove k m)

pub total-insert :
    (k : Str) (v : ℕ) (m : Map ℕ) → total (insert k v m) + get_or_zero k m ≡ total m + v
unfolding total insert
total-insert k v m = omega (arith, total-remove k m)

pub get_or_zero-le-total : (k : Str) (m : Map ℕ) → get_or_zero k m ≤ total m
get_or_zero-le-total k m = omega (arith, total-remove k m)

-- Sets of strings.
unfoldable pub member : Str → List Str → Bool
member k [] = false
member k (j ∷ s) = j == k || member k s

-- `set.insert(k)`
unfoldable pub set_insert : Str → List Str → List Str
unfolding member
set_insert k s = if member k s then s else k ∷ s

pub member-set_insert :
    (j k : Str) (s : List Str) → member j (set_insert k s) ≡ (k == j || member j s)
unfolding member set_insert
member-set_insert j k s = ground arith

member-keys-remove {ℓ} :
    {V : Type ℓ} (j k : Str) (m : Map V) → j ≢ k → member j (keys (remove k m)) ≡ member j (keys m)
unfolding member remove
member-keys-remove j k [] h = refl
member-keys-remove j k (e ∷ m) h = ground (arith, member-keys-remove j k m)

pub member-keys-insert {ℓ} :
    {V : Type ℓ} (j k : Str) (v : V) (m : Map V)
    → member j (keys (insert k v m)) ≡ (k == j || member j (keys m))
unfolding member insert
member-keys-insert j k v m = ground (arith, member-keys-remove j k m)

pub length-values {ℓ} : {V : Type ℓ} (m : Map V) → length (values m) ≡ length m
length-values [] = refl
length-values (e ∷ m) = ap suc (length-values m)
