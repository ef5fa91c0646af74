-- ===== src/Text/Trim.antt =====
-- Trimming a text without white space.
use block_rock.Base.{ℕ, ◌≡◌, refl, ap, ◌∙◌, false, [], ◌∷◌, Str, All}
use block_rock.Text.{is_whitespace, trim, trim_start, trim_end}

abbrev pub NotSpace : ℕ → Type 0
NotSpace c = is_whitespace c ≡ false

trim_start-NotSpace : (x : Str) → All NotSpace x → trim_start x ≡ x
unfolding trim_start
trim_start-NotSpace [] h = refl
trim_start-NotSpace (c ∷ x) h = rw h.0 refl

trim_end-NotSpace : (x : Str) → All NotSpace x → trim_end x ≡ x
unfolding trim_end
trim_end-NotSpace [] h = refl
trim_end-NotSpace (c ∷ []) h = rw h.0 refl
trim_end-NotSpace (c ∷ d ∷ x) h = rw (trim_end-NotSpace (d ∷ x) h.1) refl

pub trim-NotSpace : (x : Str) → All NotSpace x → trim x ≡ x
unfolding trim
trim-NotSpace x h = ap trim_end (trim_start-NotSpace x h) ∙ trim_end-NotSpace x h
