-- ===== src/Analyze/Lines/Prefix.antt =====
-- Occurrences of a word and of its prefixes.
use sorseal.Base.{
  ℕ, ◌≡◌, refl, ap, sym, ◌∙◌, ◌++◌, ◌||◌, true, [], ◌∷◌, Option, none, some, if◌then◌else◌, Text,
  nat_beq, Bool-cases, inl, inr, arith, subst,
}
use sorseal.Analyze.Suppress.{strip_prefix, after_marker, is_present}

strip_prefix-append :
    (p q s : Text)
    → is_present (strip_prefix (p ++ q) s) ≡ true
    → is_present (strip_prefix p s) ≡ true
unfolding strip_prefix
strip_prefix-append [] q s h = refl
strip_prefix-append (c ∷ p) q [] h = h
strip_prefix-append (c ∷ p) q (d ∷ s) h = elim (Bool-cases (nat_beq c d)) [
  | inl e ↦ rw e (
      strip_prefix-append p q s
        (subst (λ b. is_present (if b then strip_prefix (p ++ q) s else none) ≡ true) e h))
  | inr e ↦ absurd (ground arith)
]

is_present-or_else :
    (o rest : Option Text)
    → is_present (elim o [ some s ↦ some s | none ↦ rest ]) ≡ (is_present o || is_present rest)
is_present-or_else none rest = refl
is_present-or_else (some s) rest = refl

is_present-after_marker :
    (p : Text) (c : ℕ) (s : Text)
    → is_present (after_marker p (c ∷ s))
      ≡ (is_present (strip_prefix p (c ∷ s)) || is_present (after_marker p s))
unfolding after_marker
is_present-after_marker p c s = is_present-or_else (strip_prefix p (c ∷ s)) (after_marker p s)

pub after_marker-append :
    (p q s : Text)
    → is_present (after_marker (p ++ q) s) ≡ true
    → is_present (after_marker p s) ≡ true
unfolding after_marker
after_marker-append p q [] h = strip_prefix-append p q [] h
after_marker-append p q (c ∷ s) h = elim (Bool-cases (is_present (strip_prefix (p ++ q) (c ∷ s)))) [
  | inl e ↦ is_present-after_marker p c s ∙ rw (strip_prefix-append p q (c ∷ s) e) refl
  | inr e ↦
      is_present-after_marker p c s
      ∙ rw
          (after_marker-append p q s (
            ap (◌|| is_present (after_marker (p ++ q) s)) (sym e)
            ∙ sym (is_present-after_marker (p ++ q) c s)
            ∙ h))
          (ground arith)
]
