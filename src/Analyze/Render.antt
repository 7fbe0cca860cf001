-- ===== src/Analyze/Render.antt =====
-- The text renderings of src/analyze.rs.
pub mod Rows
use sorseal.Base.{
  ℕ, ◌++◌, Bool, true, false, not, List, [], ◌∷◌, map, if◌then◌else◌, nat_beq, length, take, text,
  Text, Result, ok, err, panic, ◌>>=◌,
}
use Prim.Native.String.{String}
use sorseal.Clock.{digits}
use sorseal.Interfaces.Files.{Sha256}
use sorseal.Manifest.{is_empty}
use sorseal.Analyze.Findings.{
  Finding, Analysis, rule_str, severity_str, Severity, low, medium, high, critical, digest,
  count_by_severity,
}
use sorseal.Analyze.RuleTable.{RuleMeta, Confidence, all_rules}
use sorseal.Analyze.Explain.{confidence_str, finding_confidence}

-- A `format!` or `join`: the pieces one after another.
unfoldable pub concat : List Text → Text
concat [] = []
concat (t ∷ ts) = t ++ concat ts

abbrev pub bar : ℕ
bar = 0x7c

-- `s.replace('|', "\\|")`.
unfoldable pub md_escape : Text → Text
md_escape [] = []
md_escape (c ∷ s) =
    let later = md_escape s in if nat_beq c bar then 0x5c ∷ bar ∷ later else c ∷ later

-- One row of the table.
unfoldable pub row : Finding → Confidence → Text
row f confidence = concat (
    text "| "
    ∷ severity_str f.severity
    ∷ text " | "
    ∷ text (confidence_str confidence)
    ∷ text " | `"
    ∷ rule_str f.rule
    ∷ text "` | `"
    ∷ md_escape f.file
    ∷ text ":"
    ∷ digits 20 f.line
    ∷ text "` | "
    ∷ md_escape f.message
    ∷ text " |\n"
    ∷ [])

-- A rendering of each finding with its confidence.
unfoldable pub each_finding : (Finding → Confidence → Text) → List Finding → Result (List Text)
each_finding render [] = ok []
each_finding render (f ∷ fs) = do
  confidence ← finding_confidence f
  later ← each_finding render fs
  ok (render f confidence ∷ later)

unfoldable pub render_markdown : Sha256 → Text → Text → Analysis → Result Text
render_markdown sha project artifact analysis =
    let title = concat (text "# Analysis: " ∷ project ∷ text " — " ∷ artifact ∷ text "\n\n" ∷ []) in
    if not analysis.ok then ok (title ++ text "_No Rust source files found to analyze._\n") else (do
      rows ← each_finding row analysis.findings
      ok (
          concat (
            title
            ∷ text "- findings: "
            ∷ digits 20 (length analysis.findings)
            ∷ text "\n- digest: `"
            ∷ digest sha analysis
            ∷ text "`\n"
            ∷ text
                "\n| severity | confidence | rule | location | finding |\n|---|---|---|---|---|\n"
            ∷ rows)))

-- `lines.join("\n")`.
unfoldable pub join_lines : List Text → Text
join_lines [] = []
join_lines (l ∷ []) = l
join_lines (l ∷ m ∷ ls) = l ++ (10 ∷ join_lines (m ∷ ls))

unfoldable pub console_line : Finding → Confidence → Text
console_line f confidence = concat (
    severity_str f.severity
    ∷ text "  "
    ∷ rule_str f.rule
    ∷ text "  "
    ∷ f.file
    ∷ text ":"
    ∷ digits 20 f.line
    ∷ text " — "
    ∷ f.message
    ∷ text "  ("
    ∷ text (confidence_str confidence)
    ∷ text " confidence)"
    ∷ [])

unfoldable pub counts_line : Analysis → Text
counts_line a = concat (
    digits 20 (length a.findings)
    ∷ text " findings — Critical: "
    ∷ digits 20 (count_by_severity a critical)
    ∷ text " · High: "
    ∷ digits 20 (count_by_severity a high)
    ∷ text " · Medium: "
    ∷ digits 20 (count_by_severity a medium)
    ∷ text " · Low: "
    ∷ digits 20 (count_by_severity a low)
    ∷ [])

-- A digest has 64 digits, so the slice of its first twelve bytes does not panic.
unfoldable pub render_analysis : Sha256 → Text → Text → Analysis → Result Text
render_analysis sha project artifact analysis =
    let title = concat (text "Sorseal — " ∷ project ∷ text " analyze :: " ∷ artifact ∷ []) in
    if not analysis.ok
    then ok (
        join_lines (
          title
          ∷ []
          ∷ text "ERROR   no Rust source files found to analyze"
          ∷ []
          ∷ text "checked: 0 source files"
          ∷ []))
    else (do
      found ← each_finding console_line analysis.findings
      let listed =
          if is_empty analysis.findings then text "CLEAN   no findings in source" ∷ [] else found
      let summary = text "analysis digest sha256 " ++ take 12 (digest sha analysis)
      ok (join_lines ((title ∷ [] ∷ listed) ++ ([] ∷ counts_line analysis ∷ summary ∷ []))))

unfoldable pub render_explain : RuleMeta → Text
render_explain m = concat (
    text m.id
    ∷ text "  "
    ∷ text m.name
    ∷ text "  ("
    ∷ text m.severity
    ∷ text ", "
    ∷ text (confidence_str m.confidence)
    ∷ text " confidence)\n\n"
    ∷ text m.description
    ∷ text "\n\nExample:\n"
    ∷ text m.example
    ∷ text "\n\nHow to fix:\n  "
    ∷ text m.fix
    ∷ [])

unfoldable pub explain_lines : List RuleMeta → Text
explain_lines [] = []
explain_lines (m ∷ ms) =
    concat (
      text "  "
      ∷ text m.id
      ∷ text "  "
      ∷ text m.name
      ∷ text "  ("
      ∷ text m.severity
      ∷ text ", "
      ∷ text (confidence_str m.confidence)
      ∷ text " confidence)  — "
      ∷ text m.short_desc
      ∷ text "\n"
      ∷ [])
    ++ explain_lines ms

unfoldable pub render_explain_all : Text
render_explain_all = text "sorseal analyze rules\n" ++ explain_lines all_rules
