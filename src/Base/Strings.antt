-- ===== src/Base/Strings.antt =====
-- Byte strings. A Rust `String` or `&str` is its UTF-8 bytes: the source compares, orders,
-- measures and hashes strings by their bytes only.
use Prim.Native.Nat.{ℕ}
use Prim.Native.Char.{code}
use Prim.Native.String.{String}
use mathlib.Core.Path.{◌≡◌}
use mathlib.Core.Bool.{Bool, true, false}
use mathlib.Core.List.{List, [], ◌∷◌}
use mathlib.Core.Logic.{◌≢◌}
use native.Mathlib.Decide.{ℕ_discrete}
use native.Mathlib.Omega.{arith}

abbrev pub Bytes : Type 0
Bytes = List ℕ

abbrev pub Str : Type 0
Str = List ℕ

-- A literal of ASCII characters is its code points.
abbrev pub codes : String → Str
codes String.[] = []
codes (String.◌∷◌ c s) = code c ∷ codes s

unfoldable pub Bytes-discrete : Discrete Bytes
unfolding ℕ_discrete
Bytes-discrete = hlevel ℕ_discrete

abbrev decides {ℓ} : {P : Type ℓ} → Dec P → Bool
decides (yes p) = true
decides (no p) = false

infix 50 ◌==◌
abbrev pub ◌==◌ : Bytes → Bytes → Bool
a == b = decides (Bytes-discrete a b)

pub ==_refl : (a : Bytes) → (a == a) ≡ true
==_refl a = ground arith

pub ==→eq : (a b : Bytes) → (a == b) ≡ true → a ≡ b
==→eq a b h = ground arith

pub ==-eq-false : (a b : Bytes) → a ≢ b → (a == b) ≡ false
==-eq-false a b h = ground arith
