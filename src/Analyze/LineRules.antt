-- ===== src/Analyze/LineRules.antt =====
-- `run_line_rules` of src/analyze.rs: the rules that look at one line.
use sorseal.Base.{
  ℕ, suc, ◌++◌, ◌&&◌, ◌||◌, not, Bool, false, List, [], ◌∷◌, Option, none, some, any, if◌then◌else◌,
  Text, ltb, leb,
}
use sorseal.Analyze.Findings.{Finding}
use sorseal.Analyze.Lines.{Line, has, has_any}
use sorseal.Analyze.Reports.{
  missing_reentrancy_guard_report, hardcoded_storage_key_report, unsafe_raw_pointer_report,
  panic_on_storage_read_report,
}
use sorseal.Analyze.FunctionRules.{as_u32, add_u32, report_if, calls_contract}

-- A range of lines without its end.
abbrev pub Range : Type 0
Range = ℕ × ℕ

unfoldable pub in_test : Option (List Range) → ℕ → Bool
in_test none file_index = false
in_test (some ranges) file_index =
    any (λ (r : Range). leb (as_u32 r.0) file_index && ltb file_index (as_u32 r.1)) ranges

unfoldable pub unguarded_call : Text → Bool
unguarded_call line = calls_contract line && not (has "non_reentrant" line)

unfoldable pub hardcodes_key : Text → Bool
hardcodes_key line =
    has "Symbol::new(" line && has_any ("storage()" ∷ "persistent()" ∷ "instance()" ∷ []) line

unfoldable pub uses_unsafe : Text → Bool
uses_unsafe line =
    has_any ("unsafe {" ∷ "unsafe{" ∷ "*const " ∷ "*mut " ∷ "as *const" ∷ "as *mut" ∷ []) line

unfoldable pub panics_on_read : Text → Bool
panics_on_read line =
    has ".get(" line && (has "storage()" line && (has "unwrap()" line || has "expect(" line))

-- What one line that is not passed over pushes.
unfoldable pub local_findings : Text → ℕ → Text → List Finding
local_findings rel lineno line =
    report_if (unguarded_call line) missing_reentrancy_guard_report rel lineno
    ++ report_if (hardcodes_key line) hardcoded_storage_key_report rel lineno
    ++ report_if (uses_unsafe line) unsafe_raw_pointer_report rel lineno
    ++ report_if (panics_on_read line) panic_on_storage_read_report rel lineno

-- The loop; `i` counts from where the lines begin.
unfoldable pub run_line_rules_from : ℕ → List Line → Text → Option (List Range) → ℕ → List Finding
run_line_rules_from i [] rel test_ranges base_line = []
run_line_rules_from i (l ∷ ls) rel test_ranges base_line =
    let file_index = add_u32 base_line (as_u32 i) in
    let later = run_line_rules_from (suc i) ls rel test_ranges base_line in
    if in_test test_ranges file_index
    then later
    else local_findings rel (add_u32 file_index 1) l.stripped ++ later

-- The findings that the call appends.
unfoldable pub run_line_rules : List Line → Text → Option (List Range) → ℕ → List Finding
run_line_rules ls rel test_ranges base_line = run_line_rules_from 0 ls rel test_ranges base_line
