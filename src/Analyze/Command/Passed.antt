-- ===== src/Analyze/Command/Passed.antt =====
-- What the gate of `analyze` in src/main.rs asks of one artifact.
use sorseal.Base.{
  ◌≡◌, ◌↔◌, ◌<◌, ◌++◌, ◌∙◌, refl, ap, subst, sym, true, false, Bool, List, [], ◌∷◌, Bytes, All,
  Result, ok, err, panic, if◌then◌else◌, >>=-eq-ok, Bool-cases, inl, inr, arith,
}
use sorseal.Manifest.{Artifact}
use sorseal.WasmScan.{WasmStats, scan}
use sorseal.WasmScan.Findings.{wasm_findings}
use sorseal.Analyze.Findings.{Severity, rank, Finding, Analysis}
use sorseal.Analyze.Blocks.{Alphanumeric}
use sorseal.Analyze.Tree.{key, key_order, insert_finding, sort_findings, analyze_tree_with}
use sorseal.Analyze.Command.{AnalyzeArgs, Workspace, scanned_findings, analyze_artifact}

abbrev pub Below : Severity → Finding → Type 0
Below t f = rank f.severity < rank t

-- Sources were found, and no finding reaches the threshold.
abbrev pub Clean : Severity → Analysis → Type 0
Clean t a = (a.ok ≡ true) × All (Below t) a.findings

-- The sources are found and analyzed, with no finding that reaches the threshold, and the wasm file, where it is asked
-- for, can be read and is scanned, has none either.
abbrev pub Passes : Alphanumeric → AnalyzeArgs → Workspace → Severity → Artifact → Type 0
Passes ia args w t a =
    (analysis : Analysis) × (analyze_tree_with ia a.source_root (w.sources a.source_root)
        args.ignore args.no_ignore
      ≡ ok analysis)
    × (Clean t analysis)
    × (args.wasm ≡ true
        → (bytes : Bytes) (stats : WasmStats) → w.read a.wasm_path ≡ ok bytes
        → scan bytes ≡ ok stats
        → All (Below t) (wasm_findings stats))

module _ (P : Finding → Type 0) where
  All-insert_finding :
      (f : Finding) (l : List Finding) → All P (insert_finding f l) ↔ (P f × All P l)
  unfolding insert_finding
  All-insert_finding f [] = ((λ h. h), (λ h. h))
  All-insert_finding f (g ∷ l) =
      let rest = All-insert_finding f l in
      elim (Bool-cases (key_order.lt (key g) (key f))) [
        | inl before ↦ rw before (
          (λ (here, behind). let (first, others) = rest.0 behind in (first, (here, others))),
          (λ (first, (here, others)). (here, rest.1 (first, others))),
        )
        | inr behind ↦ rw behind ((λ h. h), (λ h. h))
      ]

  All-sort_findings : (l : List Finding) → All P (sort_findings l) ↔ All P l
  unfolding sort_findings
  All-sort_findings [] = ((λ h. h), (λ h. h))
  All-sort_findings (f ∷ l) =
      let here = All-insert_finding f (sort_findings l) in
      let rest = All-sort_findings l in
      (
        (λ h. let (first, others) = here.0 h in (first, rest.0 others)),
        (λ (first, others). here.1 (first, rest.1 others)),
      )

  All-append : (k l : List Finding) → All P (k ++ l) ↔ (All P k × All P l)
  All-append [] l = ((λ h. (tt, h)), (λ (u, h). h))
  All-append (f ∷ k) l =
      let rest = All-append k l in
      (
        (λ (first, others). let (front, back) = rest.0 others in ((first, front), back)),
        (λ ((first, front), back). (first, rest.1 (front, back))),
      )

  after_scan :
      (r : Result WasmStats) {added : List Finding}
      → (elim r [ ok stats ↦ ok (wasm_findings stats) | err e ↦ ok [] | panic ↦ panic ]) ≡ ok added
      → All P added ↔ ((stats : WasmStats) → r ≡ ok stats → All P (wasm_findings stats))
  after_scan (ok stats) {added} h =
      let is_added : wasm_findings stats ≡ added = ground (arith, h) in
      (
        (λ all stats' same.
            let is_stats : stats ≡ stats' = ground (arith, same) in
            subst (λ s. All P (wasm_findings s)) is_stats (subst (All P) (sym is_added) all)),
        (λ all. subst (All P) is_added (all stats refl)),
      )
  after_scan (err e) {added} h =
      let none_added : [] ≡ added = ground (arith, h) in
      (
        (λ all stats scanned. absurd (ground (arith, scanned))),
        (λ all. subst (All P) none_added tt),
      )
  after_scan panic h = absurd (ground (arith, h))

  -- Where the binary is read and scanned, its findings are added, else none.
  scanned_findings-All :
      (r : Result Bytes) {added : List Finding}
      → scanned_findings r ≡ ok added
      → All P added ↔ (
          (bytes : Bytes) (stats : WasmStats)
          → r ≡ ok bytes
          → scan bytes ≡ ok stats
          → All P (wasm_findings stats))
  unfolding scanned_findings
  scanned_findings-All panic h = absurd (ground (arith, h))
  scanned_findings-All (err e) {added} h =
      let none_added : [] ≡ added = ground (arith, h) in
      (
        (λ all bytes stats readable. absurd (ground (arith, readable))),
        (λ all. subst (All P) none_added tt),
      )
  scanned_findings-All (ok bytes) {added} h =
      let scanned = after_scan (scan bytes) h in
      (
        (λ all bytes' stats readable is_scan.
            let same : bytes ≡ bytes' = ground (arith, readable) in
            scanned.0 all stats (ap scan same ∙ is_scan)),
        (λ all. scanned.1 (λ stats is_scan. all bytes stats refl is_scan)),
      )

module _ (ia : Alphanumeric) (args : AnalyzeArgs) (w : Workspace) (t : Severity) where
  added_findings-All :
      (wanted : Bool) (r : Result Bytes) {added : List Finding}
      → (if wanted then scanned_findings r else ok []) ≡ ok added
      → All (Below t) added ↔ (
          wanted ≡ true
          → (bytes : Bytes) (stats : WasmStats) → r ≡ ok bytes
          → scan bytes ≡ ok stats
          → All (Below t) (wasm_findings stats))
  added_findings-All true r h =
      let scanned = scanned_findings-All (Below t) r h in
      ((λ all u. scanned.0 all), (λ all. scanned.1 (all refl)))
  added_findings-All false r {added} h =
      let none_added : [] ≡ added = ground (arith, h) in
      (
        (λ all no_wasm. absurd (ground (arith, no_wasm))),
        (λ all. subst (All (Below t)) none_added tt),
      )

  pub analyze_artifact-Passes :
      (a : Artifact) {analysis : Analysis}
      → analyze_artifact ia args w a ≡ ok analysis
      → Clean t analysis ↔ Passes ia args w t a
  unfolding analyze_artifact
  analyze_artifact-Passes a {analysis} h =
      let tree =
        analyze_tree_with ia a.source_root (w.sources a.source_root) args.ignore args.no_ignore in
      let (sources, is_sources, h') = >>=-eq-ok tree _ h in
      let (added, is_added, h'') =
        >>=-eq-ok (if args.wasm then scanned_findings (w.read a.wasm_path) else ok []) _ h' in
      let all = sources.findings ++ added in
      let merged : Analysis = record { ok = sources.ok; findings = sort_findings all } in
      let same : merged ≡ analysis = ground (arith, h'') in
      let sorted = All-sort_findings (Below t) all in
      let parts = All-append (Below t) (sources.findings) added in
      let binary = added_findings-All args.wasm (w.read a.wasm_path) is_added in
      subst (λ (b : Analysis). Clean t b ↔ Passes ia args w t a) same
        (
          (λ (valid, clean).
              let (front, back) = parts.0 (sorted.0 clean) in
              (sources, is_sources, (valid, front), binary.0 back)),
          (λ (other, is_other, (valid, front), back).
              let same_sources : other ≡ sources = ground (arith, sym is_other ∙ is_sources) in
              let (valid', front') = subst (Clean t) same_sources (valid, front) in
              (valid', sorted.1 (parts.1 (front', binary.1 back)))),
        )
