-- ===== src/Analyze/Lines/Contains.antt =====
-- What the substring test of src/analyze.rs finds.
use sorseal.Base.{
  ◌≡◌, ap, ◌++◌, true, [], ◌∷◌, Option, none, some, if◌then◌else◌, Text, text, nat_beq, nat_beq_iff,
  Bool-cases, inl, inr, arith, Option-cases, subst,
}
use Prim.Native.String.{String}
use sorseal.Analyze.Suppress.{strip_prefix, after_marker}
use sorseal.Analyze.Lines.{has}

-- The text has these characters in it, one behind the other.
abbrev pub Contains : Text → Text → Type 0
Contains word s = (pre : Text) × (post : Text) × (s ≡ pre ++ (word ++ post))

strip_prefix-eq-some : (p s : Text) {rest : Text} → strip_prefix p s ≡ some rest → s ≡ p ++ rest
unfolding strip_prefix
strip_prefix-eq-some [] s h = ground arith
strip_prefix-eq-some (c ∷ p) [] h = ground arith
strip_prefix-eq-some (c ∷ p) (d ∷ s) {rest} h = elim (Bool-cases (nat_beq c d)) [
  | inl e ↦
      let behind : strip_prefix p s ≡ some rest =
        subst (λ b. (if b then strip_prefix p s else none) ≡ some rest) e h in
      let tail = strip_prefix-eq-some p s behind in
      let head = (nat_beq_iff c d).0 e in rw head (ap (◌∷◌ d) tail)
  | inr e ↦ absurd (ground arith)
]

pub after_marker-Contains : (p s : Text) {rest : Text} → after_marker p s ≡ some rest → Contains p s
unfolding after_marker
after_marker-Contains p [] {rest} h = ([], rest, strip_prefix-eq-some p [] h)
after_marker-Contains p (c ∷ s) {rest} h = elim (Option-cases (strip_prefix p (c ∷ s))) [
  | inr (post, here) ↦ ([], post, strip_prefix-eq-some p (c ∷ s) here)
  | inl not_here ↦
      let behind : after_marker p s ≡ some rest =
        subst
          (λ (o : Option Text). elim o [ some r ↦ some r | none ↦ after_marker p s ] ≡ some rest)
          not_here h in
      let (pre, post, is) = after_marker-Contains p s behind in (c ∷ pre, post, ap (◌∷◌ c) is)
]

pub has-Contains : (needle : String) (s : Text) → has needle s ≡ true → Contains (text needle) s
unfolding has
has-Contains needle s h = elim (Option-cases (after_marker (text needle) s)) [
  | inl absent ↦ absurd (ground (arith, absent, h))
  | inr (rest, found) ↦ after_marker-Contains (text needle) s found
]
