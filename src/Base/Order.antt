-- ===== src/Base/Order.antt =====
-- Linear orders as Boolean tests, and sorting by insertion.
use Prim.Native.Nat.{ℕ}
use mathlib.Core.Path.{◌≡◌, refl, ap, ◌∙◌}
use mathlib.Core.Logic.{inl, inr}
use mathlib.Core.Bool.{Bool, true, false, not, ◌&&◌, ◌||◌}
use mathlib.Core.List.{List, [], ◌∷◌, ◌++◌}
use native.Mathlib.Omega.{arith}
use sorseal.Base.Tests.{nat_beq, ltb, if◌then◌else◌, Bool-cases}
use sorseal.Base.Words.{Text}

pub record LinearOrder (A : Type 0) : Type 0 where
  pub lt : A → A → Bool
  pub asym : (a b : A) → lt a b ≡ true → lt b a ≡ false
  pub connected : (a b : A) → lt a b ≡ false → lt b a ≡ false → a ≡ b
  -- What is not below the middle one is above all that the middle one is above.
  pub mixed : (a b c : A) → lt c b ≡ false → lt c a ≡ true → lt b a ≡ true

pub ltb-asym : (a b : ℕ) → ltb a b ≡ true → ltb b a ≡ false
ltb-asym a b h = ground arith

pub ltb-connected : (a b : ℕ) → ltb a b ≡ false → ltb b a ≡ false → a ≡ b
ltb-connected a b h k = ground arith

pub ltb-mixed : (a b c : ℕ) → ltb c b ≡ false → ltb c a ≡ true → ltb b a ≡ true
ltb-mixed a b c h k = ground arith

abbrev pub nat_order : LinearOrder ℕ
nat_order = record { lt = ltb; asym = ltb-asym; connected = ltb-connected; mixed = ltb-mixed }

-- The first difference decides.
unfoldable pub text_lt : Text → Text → Bool
text_lt s [] = false
text_lt [] (d ∷ t) = true
text_lt (c ∷ s) (d ∷ t) = if nat_beq c d then text_lt s t else ltb c d

pub text_lt-asym : (s t : Text) → text_lt s t ≡ true → text_lt t s ≡ false
unfolding text_lt
text_lt-asym [] t h = refl
text_lt-asym (c ∷ s) [] h = absurd (ground arith)
text_lt-asym (c ∷ s) (d ∷ t) h = ground (arith, text_lt-asym s t)

pub text_lt-connected : (s t : Text) → text_lt s t ≡ false → text_lt t s ≡ false → s ≡ t
unfolding text_lt
text_lt-connected [] [] h k = refl
text_lt-connected [] (d ∷ t) h k = absurd (ground arith)
text_lt-connected (c ∷ s) [] h k = absurd (ground arith)
text_lt-connected (c ∷ s) (d ∷ t) h k = ground (arith, text_lt-connected s t)

pub text_lt-mixed : (s t u : Text) → text_lt u t ≡ false → text_lt u s ≡ true → text_lt t s ≡ true
unfolding text_lt
text_lt-mixed [] t u h k = absurd (ground arith)
text_lt-mixed (c ∷ s) [] u h k = refl
text_lt-mixed (c ∷ s) (d ∷ t) [] h k = absurd (ground arith)
text_lt-mixed (c ∷ s) (d ∷ t) (e ∷ u) h k = ground (arith, text_lt-mixed s t u)

abbrev pub text_order : LinearOrder Text
text_order = record {
  lt = text_lt;
  asym = text_lt-asym;
  connected = text_lt-connected;
  mixed = text_lt-mixed;
}

module _ {A : Type 0} {B : Type 0} (p : LinearOrder A) (q : LinearOrder B) where
  unfoldable pub lex_lt : A × B → A × B → Bool
  lex_lt (a, b) (c, d) = p.lt a c || (not (p.lt c a) && q.lt b d)

  pub lex_lt-asym : (x y : A × B) → lex_lt x y ≡ true → lex_lt y x ≡ false
  unfolding lex_lt
  lex_lt-asym (a, b) (c, d) h = ground (arith, p.asym a c, q.asym b d)

  pub lex_lt-connected : (x y : A × B) → lex_lt x y ≡ false → lex_lt y x ≡ false → x ≡ y
  unfolding lex_lt
  lex_lt-connected (a, b) (c, d) h k = ground (arith, p.connected a c, q.connected b d)

  pub lex_lt-mixed : (x y z : A × B) → lex_lt z y ≡ false → lex_lt z x ≡ true → lex_lt y x ≡ true
  unfolding lex_lt
  lex_lt-mixed (a, b) (c, d) (e, f) h k = ground (
    arith,
    p.mixed a c e,
    p.asym a c,
    p.asym c e,
    p.connected c e,
    p.connected a e,
    q.mixed b d f,
  )

  abbrev pub lex_order : LinearOrder (A × B)
  lex_order = record {
    lt = lex_lt;
    asym = lex_lt-asym;
    connected = lex_lt-connected;
    mixed = lex_lt-mixed;
  }

module _ {A : Type 0} (p : LinearOrder A) where
  unfoldable pub insert : A → List A → List A
  insert a [] = a ∷ []
  insert a (b ∷ l) = if p.lt b a then b ∷ insert a l else a ∷ b ∷ l

  -- Sorted by insertion behind what is sorted already.
  unfoldable pub insert_all : List A → List A → List A
  unfolding insert
  insert_all [] l = l
  insert_all (a ∷ others) l = insert a (insert_all others l)

  either_order :
      (a b : A) (l la lb : List A)
      → la ≡ a ∷ l
      → lb ≡ b ∷ l
      → (if p.lt b a then b ∷ la else a ∷ b ∷ l) ≡ (if p.lt a b then a ∷ lb else b ∷ a ∷ l)
  either_order a b l la lb h k = elim (Bool-cases (p.lt b a)) [
    | inl e ↦ rw e (rw (p.asym b a e) (rw h refl))
    | inr e ↦ elim (Bool-cases (p.lt a b)) [
      | inl f ↦ rw e (rw f (rw k refl))
      | inr f ↦ rw e (rw f (rw (p.connected a b f e) refl))
    ]
  ]

  insert_comm : (a b : A) (l : List A) → insert a (insert b l) ≡ insert b (insert a l)
  unfolding insert
  insert_comm a b [] = either_order a b [] (a ∷ []) (b ∷ []) refl refl
  insert_comm a b (c ∷ l) = elim (Bool-cases (p.lt c a)) [
    | inl e ↦ elim (Bool-cases (p.lt c b)) [
      | inl f ↦ rw e (rw f (rw e (ap (◌∷◌ c) (insert_comm a b l))))
      | inr f ↦ let g = p.mixed a b c f e in rw e (rw f (rw g (rw e refl)))
    ]
    | inr e ↦ elim (Bool-cases (p.lt c b)) [
      | inl f ↦ let g = p.mixed b a c e f in rw e (rw f (rw e (rw g refl)))
      | inr f ↦
          rw e (rw f (either_order a b (c ∷ l) (insert a (c ∷ l)) (b ∷ c ∷ l) (rw e refl) refl))
    ]
  ]

  insert-insert_all :
      (a : A) (xs l : List A) → insert a (insert_all xs l) ≡ insert_all xs (insert a l)
  unfolding insert_all
  insert-insert_all a [] l = refl
  insert-insert_all a (x ∷ xs) l =
      insert_comm a x (insert_all xs l) ∙ ap (insert x) (insert-insert_all a xs l)

  -- In which order two lists are sorted in does not matter.
  pub insert_all_comm :
      (xs ys l : List A) → insert_all xs (insert_all ys l) ≡ insert_all ys (insert_all xs l)
  unfolding insert_all
  insert_all_comm [] ys l = refl
  insert_all_comm (x ∷ xs) ys l =
      ap (insert x) (insert_all_comm xs ys l) ∙ insert-insert_all x ys (insert_all xs l)

  pub insert_all-append :
      (xs ys l : List A) → insert_all (xs ++ ys) l ≡ insert_all xs (insert_all ys l)
  unfolding insert_all
  insert_all-append [] ys l = refl
  insert_all-append (x ∷ xs) ys l = ap (insert x) (insert_all-append xs ys l)
