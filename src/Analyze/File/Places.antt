-- ===== src/Analyze/File/Places.antt =====
-- Where the findings of one file are.
use sorseal.Base.{
  ℕ, suc, ◌+◌, ◌≡◌, ◌≤◌, ◌<◌, refl, ap, sym, subst, ◌∙◌, ◌++◌, Bool, true, false, List, [], ◌∷◌,
  Option, filter, length, Text, All, Bool-cases, inl, inr, arith,
}
use sorseal.Analyze.Findings.{Finding}
use sorseal.Analyze.Lines.{Line}
use sorseal.Analyze.Reports.{Report, found}
use sorseal.Analyze.FunctionRules.{
  as_u32, add_u32, report_if, Seen, nothing_seen, see, line_findings, scan_lines, summary_findings,
  run_function_rules,
}
use sorseal.Analyze.LineRules.{Range, in_test, local_findings, run_line_rules_from}

abbrev pub u32_end : ℕ
u32_end = 4294967296

pub as_u32_lem : (n : ℕ) → n < u32_end → as_u32 n ≡ n
unfolding as_u32
as_u32_lem n h = omega arith

pub add_u32_lem : (a b : ℕ) → a + b < u32_end → add_u32 a b ≡ a + b
unfolding add_u32
add_u32_lem a b h = omega arith

module _ {A : Type 0} (P : A → Type 0) where
  pub All-append : (xs ys : List A) → All P xs → All P ys → All P (xs ++ ys)
  All-append [] ys h k = k
  All-append (x ∷ xs) ys (p, h) k = (p, All-append xs ys h k)

  pub All-filter : (p : A → Bool) (xs : List A) → All P xs → All P (filter p xs)
  All-filter p [] h = tt
  All-filter p (x ∷ xs) (a, h) = elim (Bool-cases (p x)) [
    | inl e ↦ rw e (a, All-filter p xs h)
    | inr e ↦ rw e (All-filter p xs h)
  ]

-- In the file, behind line `low` and up to line `high`.
abbrev pub InPlace : Text → ℕ → ℕ → Finding → Type 0
InPlace rel low high f = (f.file ≡ rel) × (low < f.line) × (f.line ≤ high)

module _ (rel : Text) (low high : ℕ) where
  abbrev Placed : List Finding → Type 0
  Placed = All (InPlace rel low high)

  report_if-InPlace :
      (test : Bool) (r : Report) (line : ℕ)
      → (low < line) × (line ≤ high)
      → Placed (report_if test r rel line)
  unfolding report_if found
  report_if-InPlace true r line h = ((refl, h.0, h.1), tt)
  report_if-InPlace false r line h = tt

  append-InPlace :
      (test : Bool) (r : Report) (line : ℕ) (fs : List Finding)
      → (low < line) × (line ≤ high)
      → Placed fs
      → Placed (fs ++ report_if test r rel line)
  append-InPlace test r line fs h k =
      All-append (InPlace rel low high) fs _ k (report_if-InPlace test r line h)

  line_findings-InPlace :
      (lineno : ℕ) (l : Line)
      → (low < lineno) × (lineno ≤ high)
      → Placed (line_findings rel lineno l)
  unfolding line_findings
  line_findings-InPlace lineno l h = append-InPlace _ _ lineno _ h (report_if-InPlace _ _ lineno h)

  scan_lines-InPlace :
      (fn_start li : ℕ) (seen : Seen) (ls : List Line)
      → low < fn_start
      → fn_start + li + length ls ≤ suc high
      → high < u32_end
      → Placed (scan_lines rel fn_start li seen ls).1
  unfolding scan_lines
  scan_lines-InPlace fn_start li seen [] h k m = tt
  scan_lines-InPlace fn_start li seen (l ∷ ls) h k m =
      let lineno : add_u32 fn_start (as_u32 li) ≡ fn_start + li =
        ap (add_u32 fn_start) (as_u32_lem li (omega arith))
        ∙ add_u32_lem fn_start li (omega arith) in
      All-append (InPlace rel low high) (line_findings rel (add_u32 fn_start (as_u32 li)) l) _
        (line_findings-InPlace _ l
          (subst (λ n. (low < n) × (n ≤ high)) (sym lineno) (omega arith, omega arith)))
        (scan_lines-InPlace fn_start (suc li) (see seen l) ls h (omega arith) m)

  summary_findings-InPlace :
      (fn_start : ℕ) (seen : Seen) (ls : List Line)
      → (low < fn_start) × (fn_start ≤ high)
      → Placed (summary_findings rel fn_start seen ls)
  unfolding summary_findings
  summary_findings-InPlace fn_start seen ls h = append-InPlace _ _ fn_start _ h (
      append-InPlace _ _ fn_start _ h (
        append-InPlace _ _ fn_start _ h (
          append-InPlace _ _ fn_start _ h (
            append-InPlace _ _ fn_start _ h (
              append-InPlace _ _ fn_start _ h
                (append-InPlace _ _ fn_start _ h (report_if-InPlace _ _ fn_start h)))))))

  pub run_function_rules-InPlace :
      (ls : List Line) (fn_start : ℕ)
      → (low < fn_start) × (fn_start ≤ high)
      → fn_start + length ls ≤ suc high
      → high < u32_end
      → Placed (run_function_rules ls rel fn_start)
  unfolding run_function_rules
  run_function_rules-InPlace ls fn_start h k m =
      All-append (InPlace rel low high) _ _
        (scan_lines-InPlace fn_start 0 nothing_seen ls h.0 (omega arith) m)
        (summary_findings-InPlace fn_start _ ls h)

  local_findings-InPlace :
      (lineno : ℕ) (line : Text)
      → (low < lineno) × (lineno ≤ high)
      → Placed (local_findings rel lineno line)
  unfolding local_findings
  local_findings-InPlace lineno line h = append-InPlace _ _ lineno _ h (
      append-InPlace _ _ lineno _ h
        (append-InPlace _ _ lineno _ h (report_if-InPlace _ _ lineno h)))

  pub run_line_rules_from-InPlace :
      (i : ℕ) (ls : List Line) (ranges : Option (List Range)) (base : ℕ)
      → low ≤ base + i
      → base + i + length ls ≤ high
      → high < u32_end
      → Placed (run_line_rules_from i ls rel ranges base)
  unfolding run_line_rules_from
  run_line_rules_from-InPlace i [] ranges base h k m = tt
  run_line_rules_from-InPlace i (l ∷ ls) ranges base h k m =
      let index : add_u32 base (as_u32 i) ≡ base + i =
        ap (add_u32 base) (as_u32_lem i (omega arith)) ∙ add_u32_lem base i (omega arith) in
      let lineno : add_u32 (add_u32 base (as_u32 i)) 1 ≡ base + i + 1 =
        ap (λ n. add_u32 n 1) index ∙ add_u32_lem (base + i) 1 (omega arith) in
      let later =
        run_line_rules_from-InPlace (suc i) ls ranges base (omega arith) (omega arith) m in
      elim (Bool-cases (in_test ranges (add_u32 base (as_u32 i)))) [
        | inl e ↦ rw e later
        | inr e ↦ rw e (
            All-append (InPlace rel low high) _ _
              (local_findings-InPlace _ l.stripped
                (subst (λ n. (low < n) × (n ≤ high)) (sym lineno) (omega arith, omega arith)))
              later)
      ]
