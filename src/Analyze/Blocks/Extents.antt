-- ===== src/Analyze/Blocks/Extents.antt =====
-- The extents of the test blocks and of the functions of a file.
use sorseal.Base.{
  ◌⊎◌, subst, ℕ, suc, ◌+◌, ◌≡◌, ◌≤◌, ◌<◌, refl, ap, sym, ◌∙◌, ◌||◌, Bool, true, false, List, [],
  ◌∷◌, Option, none, some, length, nat_beq, Text, get_elem?, Bool-cases, inl, inr, arith,
}
use sorseal.Analyze.Lines.{has}
use sorseal.Analyze.LineRules.{Range}
use sorseal.Analyze.Blocks.{
  Turn, TestScan, scan_start, test_line, test_turn_at, fn_turn_at, test_turn, closes_test,
  closes_early, depth_behind, push_range, ranges_from, test_block_ranges, Alphanumeric,
  is_fn_signature, FnScan, fn_line, fn_turn, split_functions,
}

-- Ranges that begin at or behind `low`, are not empty, end where the lines end at the latest, follow each other without
-- a common line, and begin at lines of a certain kind.
abbrev pub Extents : (ℕ → Type 0) → ℕ → ℕ → List Range → Type 0
Extents First low high [] = Unit
Extents First low high (r ∷ rs) =
    (low ≤ r.0) × (r.0 < r.1) × (r.1 ≤ high) × First r.0 × Extents First r.1 high rs

-- The line with that number is one of those that the test accepts.
abbrev pub StartsAt : (Text → Bool) → List Text → ℕ → Type 0
StartsAt accepts lines s = (line : Text) × (get_elem? lines s ≡ some line) × (accepts line ≡ true)

abbrev is_some : {A : Type 0} → Option A → Bool
is_some none = false
is_some (some a) = true

module _ (accepts : Text → Bool) {State : Type 0} (start : State → Option ℕ)
    (Inv : State → Type 0) where
  -- A turn begins a range at its own line only, one that the test accepts, and ends it one behind its own line.
  abbrev KeepsExtents : ℕ → Text → Option ℕ → Turn State → Type 0
  KeepsExtents i line o (next, none) =
      Inv next
      × ((start next ≡ none) ⊎ ((start next ≡ o) ⊎ ((accepts line ≡ true) × (start next ≡ some i))))
  KeepsExtents i line o (next, some r) =
      Inv next
      × (start next ≡ none)
      × (r.1 ≡ suc i)
      × ((o ≡ some r.0) ⊎ ((accepts line ≡ true) × (r.0 ≡ i)))

  module _ (all_lines : List Text) where
    -- A range that is open at line `i` began before it, at `low` or behind.
    abbrev Open : ℕ → ℕ → Option ℕ → Type 0
    Open low i none = low ≤ i
    Open low i (some s) = (low ≤ s) × (s < i) × StartsAt accepts all_lines s

    Open-next : (low i : ℕ) (o : Option ℕ) → Open low i o → Open low (suc i) o
    Open-next low i none h = omega arith
    Open-next low i (some s) (h, k, first) = (h, omega arith, first)

    Open-low : (low i : ℕ) (o : Option ℕ) → Open low i o → low ≤ i
    Open-low low i none h = h
    Open-low low i (some s) (h, k, first) = omega arith

    push_range-Extents :
        (low i high : ℕ) (line : Text) (o : Option ℕ) (t : Turn State) (rest : List Range)
        → KeepsExtents i line o t
        → Open low i o
        → get_elem? all_lines i ≡ some line
        → suc i ≤ high
        → ((from : ℕ)
            → Inv t.0
            → Open from (suc i) (start t.0)
            → Extents (StartsAt accepts all_lines) from high rest)
        → Extents (StartsAt accepts all_lines) low high (push_range t.1 rest)
    push_range-Extents low i high line o (next, none) rest (inv, kept) before here h later =
        later low inv (elim kept [
          | inl e ↦
              subst (Open low (suc i)) (sym e) (let l = Open-low low i o before in omega arith)
          | inr (inl e) ↦ subst (Open low (suc i)) (sym e) (Open-next low i o before)
          | inr (inr (a, e)) ↦
              subst (Open low (suc i)) (sym e)
                (Open-low low i o before, omega arith, (line, here, a))
        ])
    push_range-Extents low i high line o (next, some r) rest (inv, closed, last, kept) before here h
          later =
        let after = later r.1 inv (subst (Open r.1 (suc i)) (sym closed) (omega arith)) in
        let (l, k, first) : Open low (suc i) (some r.0) = elim kept [
          | inl e ↦ Open-next low i (some r.0) (subst (Open low i) e before)
          | inr (a, e) ↦
              subst (λ s. Open low (suc i) (some s)) (sym e)
                (Open-low low i o before, omega arith, (line, here, a))
        ] in
        (l, omega arith, omega arith, first, after)

    module _ (turn : ℕ → Text → State → Turn State)
        (keeps : (i : ℕ) (line : Text) (st : State)
          → Inv st
          → KeepsExtents i line (start st) (turn i line st)) where
      ranges_from-Extents :
          (low i high : ℕ) (st : State) (lines : List Text)
          → ((j : ℕ) → get_elem? lines j ≡ get_elem? all_lines (i + j))
          → i + length lines ≡ high
          → Inv st
          → Open low i (start st)
          → Extents (StartsAt accepts all_lines) low high (ranges_from turn i st lines)
      unfolding ranges_from
      ranges_from-Extents low i high st [] same ends inv before = tt
      ranges_from-Extents low i high st (line ∷ lines) same ends inv before =
          push_range-Extents low i high line (start st) (turn i line st)
            (ranges_from turn (suc i) (turn i line st).0 lines) (keeps i line st inv) before
            (ap (get_elem? all_lines) (omega arith) ∙ sym (same 0)) (omega arith)
            (λ from inv' before'.
              ranges_from-Extents from (suc i) high (turn i line st).0 lines
                (λ j. same (suc j) ∙ ap (get_elem? all_lines) (omega arith)) (omega arith) inv'
                before')

-- The loop is in a test block exactly when it has a beginning for it.
abbrev TestInv : TestScan → Type 0
TestInv st = st.in_test ≡ is_some st.start

-- A range that began at line `s`, and one that goes on from it.
begins :
    (accepts : Text → Bool) (i s : ℕ) (line : Text) (o : Option ℕ)
    → ((o ≡ some s) ⊎ ((accepts line ≡ true) × (s ≡ i)))
    → (some s ≡ none) ⊎ ((some s ≡ o) ⊎ ((accepts line ≡ true) × (some s ≡ some i)))
begins accepts i s line o (inl e) = inr (inl (sym e))
begins accepts i s line o (inr (a, e)) = inr (inr (a, ap some e))

abbrev KeepsTest : ℕ → Text → Option ℕ → Turn TestScan → Type 0
KeepsTest = KeepsExtents (has "#[cfg(test)]") (λ (st : TestScan). st.start) TestInv

test_line-Keeps :
    (i : ℕ) (line : Text) (o : Option ℕ) (s depth : ℕ) (saw : Bool)
    → ((o ≡ some s) ⊎ ((has "#[cfg(test)]" line ≡ true) × (s ≡ i)))
    → KeepsTest i line o (test_line i line s depth saw)
unfolding test_line
test_line-Keeps i line o s depth saw h = elim (Bool-cases (closes_test line depth saw)) [
  | inl e ↦ rw e (refl, refl, omega arith, h)
  | inr e ↦ rw e (refl, begins (has "#[cfg(test)]") i s line o h)
]

test_turn_at-Keeps :
    (i : ℕ) (line : Text) (st : TestScan) (o : Option ℕ)
    → st.in_test ≡ is_some o
    → (has "#[cfg(test)]" line || st.in_test) ≡ true
    → KeepsTest i line o (test_turn_at i line st o)
unfolding test_turn_at
test_turn_at-Keeps i line st none inv h =
    test_line-Keeps i line none i 0 false (inr (ground arith, refl))
test_turn_at-Keeps i line st (some s) inv h =
    test_line-Keeps i line (some s) s st.depth st.saw_open (inl refl)

test_turn-Keeps :
    (i : ℕ) (line : Text) (st : TestScan)
    → TestInv st
    → KeepsTest i line st.start (test_turn i line st)
unfolding test_turn
test_turn-Keeps i line st inv = elim (Bool-cases (has "#[cfg(test)]" line || st.in_test)) [
  | inl e ↦ rw e (test_turn_at-Keeps i line st st.start inv e)
  | inr e ↦ rw e (inv, inr (inl refl))
]

-- The ranges of test blocks: in the order of the file, without a common line, not empty, within the file, and each of
-- them begins at a line with the attribute.
pub test_block_ranges-Extents :
    (lines : List Text)
    → Extents (StartsAt (has "#[cfg(test)]") lines) 0 (length lines) (test_block_ranges lines)
unfolding test_block_ranges
test_block_ranges-Extents lines =
    ranges_from-Extents (has "#[cfg(test)]") (λ (st : TestScan). st.start) TestInv lines test_turn
      test_turn-Keeps 0 0 (length lines) scan_start lines (λ j. ap (get_elem? lines) (omega arith))
      (omega arith) refl (omega arith)

module _ (ia : Alphanumeric) where
  abbrev KeepsFn : ℕ → Text → Option ℕ → Turn FnScan → Type 0
  KeepsFn = KeepsExtents (is_fn_signature ia) (λ (st : FnScan). st.start) (λ st. Unit)

  fn_line-Keeps :
      (i : ℕ) (line : Text) (o : Option ℕ) (s depth : ℕ)
      → ((o ≡ some s) ⊎ ((is_fn_signature ia line ≡ true) × (s ≡ i)))
      → KeepsFn i line o (fn_line i line s depth)
  unfolding fn_line
  fn_line-Keeps i line o s depth h = elim (Bool-cases (closes_early line depth)) [
    | inl e ↦ rw e (tt, refl, omega arith, h)
    | inr e ↦ elim (Bool-cases (nat_beq (depth_behind line depth) 0)) [
      | inl f ↦ rw e (rw f (tt, refl, omega arith, h))
      | inr f ↦ rw e (rw f (tt, begins (is_fn_signature ia) i s line o h))
    ]
  ]

  fn_turn_at-Keeps :
      (i : ℕ) (line : Text) (st : FnScan) (o : Option ℕ)
      → st.start ≡ o
      → KeepsFn i line o (fn_turn_at ia i line st o)
  unfolding fn_turn_at
  fn_turn_at-Keeps i line st none h = elim (Bool-cases (is_fn_signature ia line)) [
    | inl e ↦ rw e (fn_line-Keeps i line none i 0 (inr (e, refl)))
    | inr e ↦ rw e (tt, inl h)
  ]
  fn_turn_at-Keeps i line st (some s) h = fn_line-Keeps i line (some s) s st.depth (inl refl)

  fn_turn-Keeps :
      (i : ℕ) (line : Text) (st : FnScan)
      → Unit {0}
      → KeepsFn i line st.start (fn_turn ia i line st)
  unfolding fn_turn
  fn_turn-Keeps i line st h = fn_turn_at-Keeps i line st st.start refl

-- The ranges of functions: in the order of the file, without a common line, not empty, within the file, and each of
-- them begins at a signature.
pub split_functions-Extents :
    (ia : Alphanumeric) (lines : List Text)
    → Extents (StartsAt (is_fn_signature ia) lines) 0 (length lines) (split_functions ia lines)
unfolding split_functions
split_functions-Extents ia lines =
    ranges_from-Extents (is_fn_signature ia) (λ (st : FnScan). st.start) (λ st. Unit) lines
      (fn_turn ia) (fn_turn-Keeps ia) 0 0 (length lines) _ lines
      (λ j. ap (get_elem? lines) (omega arith)) (omega arith) tt (omega arith)
