-- ===== src/WasmScan/Findings.antt =====
-- `wasm_findings` of src/wasm_scan.rs.
use sorseal.Base.{
  Bool-cases, inl, inr, ℕ, ◌≡◌, refl, ◌++◌, ◌||◌, Bool, false, List, [], ◌∷◌, if◌then◌else◌, ltb,
  nat_beq, text,
}
use sorseal.Clock.{digits}
use sorseal.Analyze.Findings.{
  critical, Finding, wasm_unreachable_export, wasm_no_exports, high, medium,
  has_findings_at_or_above,
}
use sorseal.WasmScan.{WasmStats}

-- The finding for bodies with a trap; a count of 64 bits has 20 digits at most.
unfoldable pub trap_report : ℕ → Finding
trap_report trappy = record {
  rule = wasm_unreachable_export;
  severity = high;
  message =
      text "wasm bytecode contains "
      ++ (digits 20 trappy
          ++ text
              " exported function body(s) with an `unreachable` trap; callers can be reverted by reaching this path");
  file = text "artifact.wasm";
  line = 1;
  remediation =
      text
        "Inspect the trap path: the exported entry point should return a structured error (e.g. a Status/ErrCode) rather than an `unreachable`.";
}

unfoldable pub no_exports_report : Finding
no_exports_report = record {
  rule = wasm_no_exports;
  severity = medium;
  message =
      text
        "wasm module declares zero exports; a deployable Soroban contract must expose at least one export (e.g. `__check_auth`, entry points)";
  file = text "artifact.wasm";
  line = 1;
  remediation =
      text
        "Ensure the `#[contractimpl]` (or `wasm` export) attributes are present so the build emits entry-point exports before deploying.";
}

unfoldable pub wasm_findings : WasmStats → List Finding
wasm_findings stats =
    (if ltb 0 stats.trappy_exports then trap_report stats.trappy_exports ∷ [] else [])
    ++ (if nat_beq stats.exports 0 then no_exports_report ∷ [] else [])

-- The gate on the findings of a wasm file: at High and above it fails exactly with a body that traps, at Medium with
-- a missing export too, and at Critical never.
has_findings_at_or_above-wasm_findings :
    (stats : WasmStats) (ok : Bool)
    → let gate = has_findings_at_or_above (record { ok = ok; findings = wasm_findings stats }) in
      (gate critical ≡ false)
      × (gate high ≡ ltb 0 stats.trappy_exports)
      × (gate medium ≡ (ltb 0 stats.trappy_exports || nat_beq stats.exports 0))
unfolding wasm_findings has_findings_at_or_above trap_report no_exports_report
has_findings_at_or_above-wasm_findings stats ok = elim (Bool-cases (ltb 0 stats.trappy_exports)) [
  | inl e ↦ elim (Bool-cases (nat_beq stats.exports 0)) [
    | inl f ↦ rw e (rw f (refl, refl, refl))
    | inr f ↦ rw e (rw f (refl, refl, refl))
  ]
  | inr e ↦ elim (Bool-cases (nat_beq stats.exports 0)) [
    | inl f ↦ rw e (rw f (refl, refl, refl))
    | inr f ↦ rw e (rw f (refl, refl, refl))
  ]
]
