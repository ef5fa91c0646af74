-- ===== src/Text/Decimal.antt =====
-- How an unsigned integer is shown in a message: `{}` of Rust's formatting, which writes its decimal
-- digits, and reading it back with `parse`.
use mathlib.Core.Logic.{dite, ite, if_pos, if_neg}
use mathlib.Core.WellFounded.{Acc, WellFounded, Acc-prop, induction}
use native.Mathlib.Decide.{dec_lt}
use block_rock.Base.{
  ℕ, zero, suc, ◌+◌, ◌-◌, ◌*◌, ◌/◌, ◌%◌, ◌<◌, ◌≤◌, ◌≡◌, refl, ◌∙◌, some, [], ◌∷◌, codes, ◌^◌, Str,
  arith,
}
use block_rock.Text.{digits_from, parse_below}

Acc-below : (k n : ℕ) → n < k → Acc ◌<◌ n
Acc-below zero n h = elim h [ ]
Acc-below (suc k) n h = Acc.intro n λ m less. Acc-below k m (omega arith)

lt_wf : WellFounded ◌<◌
unfolding Acc-below
lt_wf = record { apply = λ n. Acc-below (suc n) n (omega arith) }

-- The digits of a number in front of those that are written.
digits_of : (n : ℕ) → Acc ◌<◌ n → Str → Str
digits_of n (Acc.intro _ smaller) written =
    dite (dec_lt 9 n)
      (λ h. digits_of (n / 10) (smaller (n / 10) (omega arith)) ((48 + n % 10) ∷ written))
      (λ _. (48 + n) ∷ written)

unfoldable pub decimal : ℕ → Str
unfolding digits_of lt_wf dec_lt
decimal n = digits_of n (lt_wf.apply n) []

digits_of_step :
    (n : ℕ) (w : Acc ◌<◌ n) (w' : Acc ◌<◌ (n / 10)) (written : Str)
    → digits_of n w written
      ≡ ite (dec_lt 9 n) (digits_of (n / 10) w' ((48 + n % 10) ∷ written)) ((48 + n) ∷ written)
unfolding digits_of
digits_of_step n (Acc.intro _ smaller) w' written = λ i.
    dite (dec_lt 9 n)
      (λ h.
        digits_of (n / 10) (Acc-prop (smaller (n / 10) (omega arith)) w' i)
          ((48 + n % 10) ∷ written))
      (λ _. (48 + n) ∷ written)

digits_step :
    (n : ℕ) (written : Str)
    → digits_of n (lt_wf.apply n) written
      ≡ ite
          (dec_lt 9 n)
          (digits_of (n / 10) (lt_wf.apply (n / 10)) ((48 + n % 10) ∷ written))
          ((48 + n) ∷ written)
digits_step n = digits_of_step n _ _

-- Reading the last digit of a number behind the others gives the number.
digits_from-last :
    (bound n : ℕ) (written : Str)
    → n < bound
    → digits_from bound (n / 10) ((48 + n % 10) ∷ written) ≡ digits_from bound n written
unfolding digits_from
digits_from-last bound n written h =
    let e : n / 10 * 10 + (48 + n % 10 - 48) ≡ n = omega arith in rw e (ground arith)

digits_from-digits :
    (bound n : ℕ) (written : Str)
    → n < bound
    → digits_from bound 0 (digits_of n (lt_wf.apply n) written) ≡ digits_from bound n written
unfolding digits_from
digits_from-digits bound n =
    induction lt_wf
      {C = λ m.
        (written : Str)
        → m < bound
        → digits_from bound 0 (digits_of m (lt_wf.apply m) written) ≡ digits_from bound m written}
      n
      λ m ih written h. elim (dec_lt 9 m) [
        | yes g ↦
            rw (digits_step m written, if_pos _ g)
              (ih (m / 10) (omega arith) ((48 + m % 10) ∷ written) (omega arith)
                ∙ digits_from-last bound m written h)
        | no g ↦ rw (digits_step m written, if_neg _ g) (ground arith)
      ]

-- The text starts with a digit.
abbrev Starts : Str → Type 0
Starts [] = ⊥
Starts (c ∷ cs) = 48 ≤ c

digits-Starts : (n : ℕ) (written : Str) → Starts (digits_of n (lt_wf.apply n) written)
digits-Starts n =
    induction lt_wf {C = λ m. (written : Str) → Starts (digits_of m (lt_wf.apply m) written)} n
      λ m ih written. elim (dec_lt 9 m) [
        | yes h ↦
            rw (digits_step m written, if_pos _ h)
              (ih (m / 10) (omega arith) ((48 + m % 10) ∷ written))
        | no h ↦ rw (digits_step m written, if_neg _ h) (omega arith)
      ]

parse_below-Starts : (bound : ℕ) (x : Str) → Starts x → parse_below bound x ≡ digits_from bound 0 x
unfolding parse_below
parse_below-Starts bound [] h = elim h [ ]
parse_below-Starts bound (c ∷ []) h = refl
parse_below-Starts bound (c ∷ d ∷ x) h = ground arith

-- Every number below the bound is read back from its decimal digits.
pub parse_below-decimal : (bound n : ℕ) → n < bound → parse_below bound (decimal n) ≡ some n
unfolding decimal digits_from
parse_below-decimal bound n h =
    parse_below-Starts bound (digits_of n (lt_wf.apply n) []) (digits-Starts n [])
    ∙ digits_from-digits bound n [] h

-- The largest u64, and zero.
largest : decimal (2 ^ 64 - 1) ≡ codes "18446744073709551615"
unfolding decimal digits_of lt_wf dec_lt
largest = refl

nothing : decimal 0 ≡ codes "0"
unfolding decimal digits_of lt_wf dec_lt
nothing = refl
