-- ===== src/Analyze/FunctionRules/Authorized.antt =====
-- `require_auth` and the rules of src/analyze.rs that ask for it.
use sorseal.Base.{
  ℕ, ◌≡◌, refl, ◌++◌, ◌&&◌, ◌||◌, Bool, true, false, List, [], ◌∷◌, any, Text, arith,
}
use sorseal.Analyze.Findings.{RuleId, missing_auth, reentrancy, unchecked_env_caller, Finding}
use sorseal.Analyze.Lines.{Line}
use sorseal.Analyze.Reports.{Report, found}
use sorseal.Analyze.FunctionRules.{report_if, Seen, scan_lines}

-- The three rules that an authorized function does not break.
abbrev pub asks_auth : RuleId → Bool
asks_auth missing_auth = true
asks_auth reentrancy = true
asks_auth unchecked_env_caller = true
asks_auth _ = false

abbrev pub is_missing_auth : RuleId → Bool
is_missing_auth missing_auth = true
is_missing_auth _ = false

abbrev pub is_reentrancy : RuleId → Bool
is_reentrancy reentrancy = true
is_reentrancy _ = false

-- A finding of such a rule is reported.
unfoldable pub reports : (RuleId → Bool) → List Finding → Bool
reports rule fs = any (λ (f : Finding). rule f.rule) fs

and_false : (a : Bool) → (a && false) ≡ false
and_false a = ground arith

and_true : (a : Bool) → (a && true) ≡ a
and_true a = ground arith

or_false : (a : Bool) → (a || false) ≡ a
or_false a = ground arith

module _ (rule : RuleId → Bool) where
  reports-append :
      (fs gs : List Finding) → reports rule (fs ++ gs) ≡ (reports rule fs || reports rule gs)
  unfolding reports
  reports-append [] gs = refl
  reports-append (f ∷ fs) gs = ground (arith, reports-append fs gs)

  reports-report_if :
      (test : Bool) (r : Report) (rel : Text) (line : ℕ)
      → reports rule (report_if test r rel line) ≡ (test && rule r.rule)
  unfolding found reports report_if
  reports-report_if test r rel line = ground arith

ruleset reported = (and_false, and_true, or_false, reports-append, reports-report_if)

module _ (rel : Text) (fn_start : ℕ) where
  abbrev flags : ℕ → Seen → List Line → Seen
  flags li seen ls = (scan_lines rel fn_start li seen ls).0
