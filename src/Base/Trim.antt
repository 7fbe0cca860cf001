-- ===== src/Base/Trim.antt =====
-- `str::trim` on text without white space.
use Prim.Native.Nat.{ℕ}
use mathlib.Core.Path.{◌≡◌, refl, sym, ap, ◌∙◌}
use mathlib.Core.Bool.{Bool, true, false}
use mathlib.Core.List.{[], ◌∷◌, ◌++◌, append-nil}
use native.Mathlib.Omega.{arith}
use sorseal.Base.Lists.{all}
use sorseal.Base.Words.{Text, trim, trim_start, trim_end, trim_cons, is_whitespace}

-- A class of characters that are not white space.
module _ (p : ℕ → Bool) (solid : (c : ℕ) → p c ≡ true → is_whitespace c ≡ false) where
  trim_start-solid : (c : ℕ) (s : Text) → p c ≡ true → trim_start (c ∷ s) ≡ c ∷ s
  unfolding trim_start
  trim_start-solid c s h = rw (solid c h) refl

  trim_cons-solid : (c : ℕ) (s : Text) → p c ≡ true → trim_cons c s ≡ c ∷ s
  unfolding trim_cons
  trim_cons-solid c [] h = rw (solid c h) refl
  trim_cons-solid c (d ∷ s) h = refl

  trim_end-solid : (s end : Text) → trim_end end ≡ [] → all p s ≡ true → trim_end (s ++ end) ≡ s
  unfolding trim_end
  trim_end-solid [] end blank h = blank
  trim_end-solid (c ∷ s) end blank h =
      rw (trim_end-solid s end blank (ground arith)) (trim_cons-solid c s (ground arith))

  -- With what is blank behind it.
  pub trim-all_then :
      (s end : Text) → trim end ≡ [] → trim_end end ≡ [] → all p s ≡ true → trim (s ++ end) ≡ s
  unfolding trim
  trim-all_then [] end blank blank_end h = blank
  trim-all_then (c ∷ s) end blank blank_end h =
      rw (trim_start-solid c (s ++ end) (ground arith)) (trim_end-solid (c ∷ s) end blank_end h)

  pub trim-all : (s : Text) → all p s ≡ true → trim s ≡ s
  unfolding trim trim_start trim_end
  trim-all s h = ap trim (sym (append-nil s)) ∙ trim-all_then s [] refl refl h
