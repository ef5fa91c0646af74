-- ===== src/Base/Results.antt =====
-- `Result<T, E>` of the source. The `?` operator is the bind of a `do` block.
use mathlib.Core.Path.{◌≡◌, refl}
use mathlib.Core.Logic.{◌⊎◌, inl, inr}
use mathlib.Core.Bool.{Bool, true, false}
use mathlib.Core.Option.{Option, none, some}

pub data Result {ℓ} (E A : Type ℓ) : Type ℓ where
  ok : A → Result E A
  err : E → Result E A

pub Result-cases {ℓ} :
    {E A : Type ℓ} (result : Result E A)
    → ((a : A) × (result ≡ ok a)) ⊎ ((error : E) × (result ≡ err error))
Result-cases (err error) = inr (error, refl)
Result-cases (ok a) = inl (a, refl)

-- `option.ok_or_else(|| error)`
abbrev pub ok_or {ℓ} : {E A : Type ℓ} → Option A → E → Result E A
ok_or (some a) error = ok a
ok_or none error = err error

-- `result.map_err(f)`
abbrev pub map_err {ℓ} : {E F A : Type ℓ} → (E → F) → Result E A → Result F A
map_err f (ok a) = ok a
map_err f (err error) = err (f error)

-- `result.ok()`
abbrev pub ok_of {ℓ} : {E A : Type ℓ} → Result E A → Option A
ok_of (ok a) = some a
ok_of (err error) = none

-- `if !test { return Err(error) }`
abbrev pub guard : {E : Type 0} → Bool → E → Result E (Unit {0})
guard false error = err error
guard true error = ok tt

infixl 5 ◌>>=◌
abbrev pub ◌>>=◌ {ℓ} : {E A B : Type ℓ} → Result E A → (A → Result E B) → Result E B
(err error) >>= next = err error
(ok a) >>= next = next a

infixl 5 ◌>>◌
abbrev pub ◌>>◌ : {E B : Type 0} → Result E (Unit {0}) → Result E B → Result E B
(err error) >> next = err error
(ok passed) >> next = next

pub >>=-eq-ok {ℓ} :
    {E A B : Type ℓ} (result : Result E A) (next : A → Result E B) {b : B}
    → (result >>= next) ≡ ok b
    → (a : A) × (result ≡ ok a) × (next a ≡ ok b)
>>=-eq-ok (err error) next h = cc
>>=-eq-ok (ok a) next h = (a, refl, h)
