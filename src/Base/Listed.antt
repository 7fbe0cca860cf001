-- ===== src/Base/Listed.antt =====
-- Elements of a list with a property, and the test `any`.
use mathlib.Core.Path.{◌≡◌, refl}
use mathlib.Core.Logic.{◌↔◌, inl, inr}
use mathlib.Core.Bool.{Bool, true}
use mathlib.Core.List.{List, [], ◌∷◌}
use native.Mathlib.Omega.{arith}
use sorseal.Base.Tests.{Bool-cases}
use sorseal.Base.Lists.{any, all, All}

-- Somewhere in a list.
pub data Listed {A : Type 0} (P : A → Type 0) : List A → Type 0 where
  here : {x : A} {xs : List A} → P x → Listed P (x ∷ xs)
  there : {x : A} {xs : List A} → Listed P xs → Listed P (x ∷ xs)

module _ {A : Type 0} (p : A → Bool) (P : A → Type 0) (p_iff : (x : A) → (p x ≡ true) ↔ P x) where
  any-Listed : (l : List A) → any p l ≡ true → Listed P l
  any-Listed [] h = absurd (ground arith)
  any-Listed (x ∷ l) h = elim (Bool-cases (p x)) [
    | inl fits ↦ here ((p_iff x).0 fits)
    | inr other ↦ there (any-Listed l (ground arith))
  ]

  Listed-any : (l : List A) → Listed P l → any p l ≡ true
  Listed-any [] listed = elim listed [ ]
  Listed-any (x ∷ l) (here h) = ground (arith, (p_iff x).1 h)
  Listed-any (x ∷ l) (there h) = ground (arith, Listed-any l h)

  pub any_iff : (l : List A) → (any p l ≡ true) ↔ Listed P l
  any_iff l = (any-Listed l, Listed-any l)

  pub all_iff : (l : List A) → (all p l ≡ true) ↔ All P l
  all_iff [] = ((λ h. tt), (λ h. refl))
  all_iff (x ∷ l) = (
    (λ h. ((p_iff x).0 (ground arith), (all_iff l).0 (ground arith))),
    (λ (first, rest). rw ((p_iff x).1 first) ((all_iff l).1 rest)),
  )
