-- ===== src/Analyze/Command.antt =====
-- The command `analyze` of src/main.rs, without `--explain` and without what it prints.
pub mod Code
pub mod Passed
use sorseal.Base.{
  ℕ, ◌++◌, Bool, true, false, not, List, [], ◌∷◌, map, Option, none, some, if◌then◌else◌, ltb, ◌==◌,
  text_eq, length, filter, text, Text, Bytes, Result, ok, err, panic, ◌>>=◌,
}
use sorseal.Interfaces.Files.{Sha256}
use sorseal.Manifest.{Artifact}
use sorseal.Provenance.{ArtifactAnalysis, Provenance}
use sorseal.Analyze.Findings.{
  Severity, severity_str, Finding, Analysis, digest, worst_severity, has_findings_at_or_above,
}
use sorseal.Analyze.Blocks.{Alphanumeric}
use sorseal.Analyze.Tree.{Listing, sort_findings, analyze_tree_with}
use sorseal.WasmScan.{scan}
use sorseal.WasmScan.Findings.{wasm_findings}

-- The arguments that decide what is analyzed and how.
pub record AnalyzeArgs : Type 0 where
  pub artifact : Option Text
  pub fail_on : Option Severity
  pub no_ignore : Bool
  pub wasm : Bool
  pub ignore : List Text

-- What the command finds below the base directory: the source trees and the wasm files.
pub record Workspace : Type 0 where
  pub sources : Text → Result Listing
  pub read : Text → Result Bytes

unfoldable pub max_code : ℕ → ℕ → ℕ
max_code a b = if ltb a b then b else a

-- What the binary adds: nothing, with a warning, where it cannot be read or scanned.
unfoldable pub scanned_findings : Result Bytes → Result (List Finding)
scanned_findings (ok bytes) = elim (scan bytes) [
  | ok stats ↦ ok (wasm_findings stats)
  | err e ↦ ok []
  | panic ↦ panic
]
scanned_findings (err e) = ok []
scanned_findings panic = panic

unfoldable pub is_selected : Option Text → Artifact → Bool
is_selected none a = true
is_selected (some id) a = a.id == id

-- A scan that walked no source is an error; otherwise the threshold decides, where there is one.
unfoldable pub gate_code : Option Severity → Analysis → ℕ
gate_code none a = if not a.ok then 2 else 0
gate_code (some threshold) a =
    if not a.ok then 2 else if has_findings_at_or_above a threshold then 1 else 0

-- What is sealed of one analysis.
unfoldable pub sealed_analysis : Sha256 → Text → Text × Analysis → ArtifactAnalysis
sealed_analysis sha now (id, analysis) = record {
  id = id;
  findings = length analysis.findings;
  worst_severity = elim (worst_severity analysis) [ none ↦ text "none" | some s ↦ severity_str s ];
  digest = digest sha analysis;
  analyzed_at = now;
}

-- The analyses are put behind those that the record has already.
unfoldable pub seal_analyses : Sha256 → Text → List (Text × Analysis) → Provenance → Provenance
seal_analyses sha now analyzed p = record p {
  analysis = p.analysis ++ map (sealed_analysis sha now) analyzed;
}

module _ (is_alphanumeric : Alphanumeric) (args : AnalyzeArgs) (w : Workspace) where
  unfoldable pub analyze_artifact : Artifact → Result Analysis
  analyze_artifact a = do
    analysis ←
        analyze_tree_with is_alphanumeric a.source_root (w.sources a.source_root) args.ignore
          args.no_ignore
    added ← if args.wasm then scanned_findings (w.read a.wasm_path) else ok []
    ok (record { ok = analysis.ok; findings = sort_findings (analysis.findings ++ added) })

  -- The loop over the artifacts that are selected, with the exit code so far.
  unfoldable pub analyze_each : List Artifact → ℕ → Result (List (Text × Analysis) × ℕ)
  analyze_each [] code = ok ([], code)
  analyze_each (a ∷ rest) code = do
    analysis ← analyze_artifact a
    (later, last) ← analyze_each rest (max_code code (gate_code args.fail_on analysis))
    ok ((a.id, analysis) ∷ later, last)

  -- The analyses, and the exit code.
  unfoldable pub analyze_command : List Artifact → Result (List (Text × Analysis) × ℕ)
  analyze_command artifacts = analyze_each (filter (is_selected args.artifact) artifacts) 0
