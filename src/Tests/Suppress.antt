-- ===== src/Tests/Suppress.antt =====
-- Findings, the gate and suppressions.
use sorseal.Base.{Mem, ℕ, ◌≡◌, refl, false, List, [], ◌∷◌, some, take, drop, text, Text, arith}
use sorseal.Analyze.Findings.{RuleId, panic_on_input, reentrancy, Severity, medium, high, Finding}
use sorseal.Analyze.Suppress.{inline_ignore_rules, apply_inline_suppressions}
use sorseal.Analyze.Suppress.Kept.{Unmarked, Marked, apply_inline_suppressions_lem}

abbrev finding_at : RuleId → Severity → ℕ → Finding
finding_at rule severity line = record {
  rule = rule;
  severity = severity;
  message = [];
  file = [];
  line = line;
  remediation = [];
}

abbrev some_findings : List Finding
some_findings = finding_at reentrancy high 7 ∷ finding_at panic_on_input medium 2 ∷ []

abbrev a_comment : Text
a_comment = text "// sorseal:ignore SORSEAL-104"

comment_names : inline_ignore_rules a_comment ≡ some (text "SORSEAL-104" ∷ [])
unfolding inline_ignore_rules sorseal.Analyze.Suppress.ascii_upper
comment_names = refl

abbrev kept_findings : List Finding
kept_findings = apply_inline_suppressions some_findings 1 (a_comment ∷ []) false

apply_inline_suppressions_lem_example :
    (take 1 kept_findings ≡ take 1 some_findings)
    × ((f : Finding) → Mem f (drop 1 kept_findings) → Mem f (drop 1 some_findings))
    × ((f : Finding)
        → Mem f (drop 1 some_findings)
        → Unmarked (a_comment ∷ []) f
        → Mem f (drop 1 kept_findings))
    × ((f : Finding) → Marked (a_comment ∷ []) f → ¬ Mem f (drop 1 kept_findings))
    × (apply_inline_suppressions kept_findings 1 (a_comment ∷ []) false ≡ kept_findings)
apply_inline_suppressions_lem_example =
    apply_inline_suppressions_lem some_findings 1 a_comment [] (omega arith)
