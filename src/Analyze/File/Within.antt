-- ===== src/Analyze/File/Within.antt =====
-- `analyze_file` of src/analyze.rs: the places of its findings, and the findings before it.
use sorseal.Base.{
  ℕ, zero, suc, ◌+◌, ◌-◌, ◌≡◌, ◌≤◌, ◌<◌, refl, ap, sym, subst, ◌++◌, ◌||◌, not, Bool, List, [], ◌∷◌,
  none, some, map, filter, length, take, drop, min, Text, All, Bool-cases, inl, inr, arith,
}
use sorseal.Manifest.{is_empty}
use sorseal.Analyze.Findings.{Finding}
use sorseal.Analyze.Suppress.{apply_inline_suppressions, suppressed}
use sorseal.Analyze.Lines.{Line, view}
use sorseal.Analyze.FunctionRules.{as_u32, add_u32}
use sorseal.Analyze.LineRules.{Range, run_line_rules}
use sorseal.Analyze.Blocks.{Alphanumeric, test_block_ranges, split_functions, is_fn_signature}
use sorseal.Analyze.Blocks.Extents.{Extents, StartsAt, split_functions-Extents}
use sorseal.Analyze.File.{
  lines_of, slice, starts_in_test, function_findings, functions_findings, ranges_findings,
  rule_findings, analyze_file,
}
use sorseal.Analyze.File.Places.{
  u32_end, as_u32_lem, add_u32_lem, All-append, All-filter, InPlace, run_function_rules-InPlace,
  run_line_rules_from-InPlace,
}

length-map : {A : Type 0} {B : Type 0} (f : A → B) (xs : List A) → length (map f xs) ≡ length xs
length-map f [] = refl
length-map f (x ∷ xs) = ap suc (length-map f xs)

length-take : {A : Type 0} (n : ℕ) (xs : List A) → n ≤ length xs → length (take n xs) ≡ n
length-take zero xs h = refl
length-take (suc n) [] h = absurd (omega arith)
length-take (suc n) (x ∷ xs) h = ap suc (length-take n xs (omega arith))

length-drop :
    {A : Type 0} (n : ℕ) (xs : List A) → n ≤ length xs → n + length (drop n xs) ≡ length xs
length-drop zero xs h = omega arith
length-drop (suc n) [] h = absurd (omega arith)
length-drop (suc n) (x ∷ xs) h = omega (arith, length-drop n xs (omega arith))

length-slice :
    (start stop : ℕ) (lines : List Line)
    → start ≤ stop
    → stop ≤ length lines
    → start + length (slice (start, stop) lines) ≡ stop
unfolding slice
length-slice start stop lines h k =
    let front = length-drop start lines (omega arith) in
    let part = length-take (stop - start) (drop start lines) (omega arith) in omega arith

module _ (rel : Text) (lines : List Line) (tests : List Range) (m : length lines < u32_end) where
  abbrev Placed : List Finding → Type 0
  Placed = All (InPlace rel 0 (length lines))

  function_findings-InPlace :
      (start stop : ℕ)
      → start < stop
      → stop ≤ length lines
      → Placed (function_findings lines tests rel (start, stop))
  unfolding function_findings
  function_findings-InPlace start stop h k =
      let stops : min stop (length lines) ≡ stop = omega arith in
      let part = length-slice start stop lines (omega arith) k in
      let index : as_u32 start ≡ start = as_u32_lem start (omega arith) in
      let first : add_u32 start 1 ≡ start + 1 = add_u32_lem start 1 (omega arith) in
      elim (Bool-cases (starts_in_test tests start)) [
        | inl e ↦ rw e tt
        | inr e ↦ rw e (
            rw stops (
              rw index (
                rw first (
                  All-append (InPlace rel 0 (length lines)) _ _
                    (run_function_rules-InPlace rel 0 (length lines) (slice (start, stop) lines)
                      (start + 1) (omega arith, omega arith) (omega arith) m)
                    (unfold run_line_rules in
                      run_line_rules_from-InPlace rel 0 (length lines) 0 (slice (start, stop) lines)
                        (some tests) start (omega arith) (omega arith) m)))))
      ]

  functions_findings-InPlace :
      (First : ℕ → Type 0) (low : ℕ) (rs : List Range)
      → Extents First low (length lines) rs
      → Placed (functions_findings lines tests rel rs)
  unfolding functions_findings
  functions_findings-InPlace First low [] h = tt
  functions_findings-InPlace First low (r ∷ rs) (a, b, c, first, h) =
      All-append (InPlace rel 0 (length lines)) (function_findings lines tests rel r) _
        (function_findings-InPlace r.0 r.1 b c) (functions_findings-InPlace First r.1 rs h)

ranges_findings-InPlace :
    (rel : Text) (lines : List Line) (tests : List Range)
    → length lines < u32_end
    → (First : ℕ → Type 0) (rs : List Range) → Extents First 0 (length lines) rs
    → All (InPlace rel 0 (length lines)) (ranges_findings rel lines tests rs)
unfolding ranges_findings run_line_rules
ranges_findings-InPlace rel lines tests m First [] h =
    run_line_rules_from-InPlace rel 0 (length lines) 0 lines none 0 (omega arith) (omega arith) m
ranges_findings-InPlace rel lines tests m First (r ∷ rs) h =
    functions_findings-InPlace rel lines tests m First 0 (r ∷ rs) h

rule_findings-InPlace :
    (ia : Alphanumeric) (rel : Text) (lines : List Line)
    → length lines < u32_end
    → All (InPlace rel 0 (length lines)) (rule_findings ia rel lines)
unfolding rule_findings
rule_findings-InPlace ia rel lines m =
    let stripped : List Text = map (λ (l : Line). l.stripped) lines in
    let extents : Extents (StartsAt (is_fn_signature ia) stripped) 0 (length lines)
        (split_functions ia stripped) =
      subst
        (λ n. Extents (StartsAt (is_fn_signature ia) stripped) 0 n (split_functions ia stripped))
        (length-map (λ (l : Line). l.stripped) lines) (split_functions-Extents ia stripped) in
    ranges_findings-InPlace rel lines (test_block_ranges stripped) m
      (StartsAt (is_fn_signature ia) stripped) (split_functions ia stripped) extents

pub append-parts :
    (fs gs : List Finding) → (take (length fs) (fs ++ gs) ≡ fs) × (drop (length fs) (fs ++ gs) ≡ gs)
append-parts [] gs = (refl, refl)
append-parts (f ∷ fs) gs = let (front, back) = append-parts fs gs in (ap (◌∷◌ f) front, back)

-- A file of less than 2^32 lines leaves the findings before it as they are, and each finding that it adds is one in
-- this file, at a line from the first to the last.
pub analyze_file-InPlace :
    (ia : Alphanumeric) (rel contents : Text) (no_ignore : Bool) (findings : List Finding)
    → length (lines_of contents) < u32_end
    → let added = analyze_file ia rel contents no_ignore findings in
      (take (length findings) added ≡ findings)
      × All (InPlace rel 0 (length (lines_of contents))) (drop (length findings) added)
unfolding analyze_file apply_inline_suppressions
analyze_file-InPlace ia rel contents no_ignore findings m =
    let raw : List Text = lines_of contents in
    let mine : List Finding = rule_findings ia rel (map view raw) in
    let placed : All (InPlace rel 0 (length raw)) mine =
      subst (λ n. All (InPlace rel 0 n) mine) (length-map view raw)
        (rule_findings-InPlace ia rel (map view raw)
          (subst (λ n. n < u32_end) (sym (length-map view raw)) m)) in
    let (front, back) = append-parts findings mine in
    elim (Bool-cases (no_ignore || is_empty raw)) [
      | inl e ↦ rw e (front, subst (All (InPlace rel 0 (length raw))) (sym back) placed)
      | inr e ↦ rw e (
          rw front (
            rw back (
              let (front', back') =
                append-parts findings (filter (λ f. not (suppressed raw f)) mine) in
              (
                front',
                subst (All (InPlace rel 0 (length raw))) (sym back') (
                    All-filter (InPlace rel 0 (length raw)) (λ f. not (suppressed raw f)) mine
                      placed),
              ))))
    ]
