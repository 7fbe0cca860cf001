-- ===== src/Analyze/Command/Code.antt =====
-- The exit code of `analyze` in src/main.rs.
use sorseal.Base.{
  ℕ, ◌≡◌, ◌↔◌, ◌<◌, refl, ap, subst, false, List, [], ◌∷◌, map, some, leb, filter, any, All, Text,
  ok, >>=-eq-ok, arith,
}
use sorseal.Manifest.{Artifact}
use sorseal.Analyze.Findings.{Severity, rank, Finding, Analysis, has_findings_at_or_above}
use sorseal.Analyze.Blocks.{Alphanumeric}
use sorseal.Analyze.Command.Passed.{Clean, Passes, analyze_artifact-Passes}
use sorseal.Analyze.Command.{
  AnalyzeArgs, Workspace, max_code, is_selected, gate_code, analyze_artifact, analyze_each,
  analyze_command,
}

any-below :
    (t : Severity) (fs : List Finding)
    → (any (λ (f : Finding). leb (rank t) (rank f.severity)) fs ≡ false)
      ↔ All (λ (f : Finding). rank f.severity < rank t) fs
any-below t [] = ground arith
any-below t (f ∷ fs) = ground (arith, any-below t fs)

gate_code-Clean : (t : Severity) (a : Analysis) → (gate_code (some t) a ≡ 0) ↔ Clean t a
unfolding gate_code has_findings_at_or_above
gate_code-Clean t a = ground (arith, any-below t a.findings)

max_code-zero : (a b : ℕ) → (max_code a b ≡ 0) ↔ ((a ≡ 0) × (b ≡ 0))
unfolding max_code
max_code-zero a b = ground arith

module _ (ia : Alphanumeric) (args : AnalyzeArgs) (w : Workspace) (t : Severity)
    (gated : args.fail_on ≡ some t) where
  -- The analyses of these artifacts, and an exit code that is 0 for passing ones behind a code of 0 alone.
  record Gated (l : List Artifact) (code : ℕ) (found : List (Text × Analysis)) (last : ℕ)
      : Type 0 where
    each : map (λ (r : Text × Analysis). r.0) found ≡ map (λ (a : Artifact). a.id) l
    zero_iff : (last ≡ 0) ↔ ((code ≡ 0) × All (Passes ia args w t) l)

  gate_of : (a : Analysis) → (gate_code args.fail_on a ≡ 0) ↔ Clean t a
  gate_of a = rw gated (gate_code-Clean t a)

  analyze_each-Gated :
      (l : List Artifact) (code : ℕ) {found : List (Text × Analysis)} {last : ℕ}
      → analyze_each ia args w l code ≡ ok (found, last)
      → Gated l code found last
  unfolding analyze_each
  analyze_each-Gated [] code {found} {last} h =
      let same : ◌≡◌ {A = List (Text × Analysis) × ℕ} ([], code) (found, last) =
        ground (arith, h) in
      subst (λ (r : List (Text × Analysis) × ℕ). Gated [] code r.0 r.1) same
        (record { each = refl; zero_iff = ((λ z. (z, tt)), (λ (z, u). z)) })
  analyze_each-Gated (a ∷ rest) code {found} {last} h =
      let (analysis, one, h) = >>=-eq-ok (analyze_artifact ia args w a) _ h in
      let next = max_code code (gate_code args.fail_on analysis) in
      let ((later, end), others, h) = >>=-eq-ok (analyze_each ia args w rest next) _ h in
      let rec = analyze_each-Gated rest next others in
      let split = max_code-zero code (gate_code args.fail_on analysis) in
      let gate = gate_of analysis in
      let passes = analyze_artifact-Passes ia args w t a one in
      let same : ◌≡◌ {A = List (Text × Analysis) × ℕ} ((a.id, analysis) ∷ later, end)
          (found, last) =
        ground (arith, h) in
      subst (λ (r : List (Text × Analysis) × ℕ). Gated (a ∷ rest) code r.0 r.1) same
        (record {
          each = ap (◌∷◌ a.id) (rec.each);
          zero_iff = (
            (λ z.
                let (before, clean) = rec.zero_iff.0 z in
                let (code_zero, passed) = split.0 before in
                (code_zero, (passes.0 (gate.0 passed), clean))),
            (λ (code_zero, (clean, others_clean)).
                rec.zero_iff.1 (split.1 (code_zero, gate.1 (passes.1 clean)), others_clean)),
          );
        })

-- `analyze --fail-on` that comes to its end: it has analyzed exactly the artifacts that `--artifact` selects, in order,
-- and the exit code is 0 exactly when each of them passes: its sources are found and analyzed without a finding that
-- reaches the threshold, and where `--wasm` is given and the wasm file can be read and is scanned, it has none either.
pub analyze_command-Passes :
    (ia : Alphanumeric) (args : AnalyzeArgs) (w : Workspace) (t : Severity)
    (artifacts : List Artifact) {found : List (Text × Analysis)} {code : ℕ}
    → args.fail_on ≡ some t
    → analyze_command ia args w artifacts ≡ ok (found, code)
    → (map (λ (r : Text × Analysis). r.0) found
        ≡ map (λ (a : Artifact). a.id) (filter (is_selected args.artifact) artifacts))
      × ((code ≡ 0) ↔ All (Passes ia args w t) (filter (is_selected args.artifact) artifacts))
unfolding analyze_command
analyze_command-Passes ia args w t artifacts gated h =
    let g =
      analyze_each-Gated ia args w t gated (filter (is_selected args.artifact) artifacts) 0 h in
    (g.each, ((λ z. (g.zero_iff.0 z).1), (λ clean. g.zero_iff.1 (refl, clean))))
