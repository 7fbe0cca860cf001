-- ===== src/Tests/Records.antt =====
-- A manifest, a provenance and an audit report.
use sorseal.Base.{
  ℕ, ◌≡◌, ◌≢◌, ◌↔◌, refl, Bool, true, false, List, [], ◌∷◌, Option, some, none, All, replicate,
  text, Text, Result, ok,
}
use sorseal.Provenance.{GitState, ArtifactProvenance, Provenance, format_name}
use sorseal.Provenance as Provenance
use sorseal.Provenance.Valid.{IsWellSealed, validate-IsWellSealed}
use sorseal.Manifest.{Project, Artifact, Manifest}
use sorseal.Manifest as Manifest
use sorseal.Manifest.Valid.{IsWellFormed, validate-IsWellFormed}
use sorseal.Audit.Event.{UpgradeEvent}
use sorseal.Audit.Lineage.{VersionRecord, AuditReport, build_audit, is_some}
use sorseal.Audit.Lineage.Versions.{NeighboursDiffer, EndsCurrent, build_audit-EndsCurrent}
use sorseal.Audit.Lineage.Verdict.{IsLineage, Covered, build_audit_verdict}

abbrev pub digest_a : Text
digest_a = replicate 64 97

abbrev pub digest_b : Text
digest_b = replicate 64 98

abbrev pub sealed_artifact : ArtifactProvenance
sealed_artifact = record {
  id = b'c' ∷ [];
  command = b'm' ∷ [];
  wasm_path = b'w' ∷ [];
  wasm_sha256 = digest_a;
  wasm_size = 3;
  source_root = b's' ∷ [];
  source_sha256 = digest_b;
  built_at = [];
}

abbrev pub sealed_record : Provenance
sealed_record = record {
  format = format_name;
  version = 1;
  project = b'p' ∷ [];
  toolchain = [];
  git = record { present = false; commit = []; clean = false };
  artifacts = sealed_artifact ∷ [];
  analysis = [];
}

abbrev pub one_artifact : Manifest
one_artifact = record {
  project = record { name = b'p' ∷ [] };
  artifacts =
      record {
        id = b'c' ∷ [];
        build_command = b'm' ∷ [];
        wasm_path = b'w' ∷ [];
        source_root = b's' ∷ [];
      }
      ∷ [];
}

validate-IsWellSealed_example :
    (Provenance.validate sealed_record ≡ ok tt) ↔ IsWellSealed sealed_record
validate-IsWellSealed_example = validate-IsWellSealed sealed_record

sealed_record_passes : Provenance.validate sealed_record ≡ ok tt
unfolding Provenance.validate format_name Provenance.is_blank sorseal.Base.trim Provenance.is_hex64
    sorseal.Base.byte_len sorseal.Base.is_ascii_hexdigit
sealed_record_passes = refl

validate-IsWellFormed_example : (Manifest.validate one_artifact ≡ ok tt) ↔ IsWellFormed one_artifact
validate-IsWellFormed_example = validate-IsWellFormed one_artifact

one_artifact_passes : Manifest.validate one_artifact ≡ ok tt
unfolding Manifest.validate Provenance.is_blank sorseal.Base.trim Manifest.validate_tree_path
    Manifest.is_relative Manifest.segments
one_artifact_passes = refl

abbrev pub upgrade : ℕ → Text → Text → UpgradeEvent
upgrade ledger old_wasm new_wasm = record {
  ledger = ledger;
  closed_at = [];
  tx_hash = [];
  contract = digest_a;
  old_wasm = old_wasm;
  new_wasm = new_wasm;
}

abbrev two_upgrades : List UpgradeEvent
two_upgrades = upgrade 5 digest_a digest_b ∷ upgrade 9 digest_b digest_a ∷ []

abbrev the_report : AuditReport
the_report = build_audit digest_a two_upgrades digest_a (some sealed_record) [] (1, 9)

build_audit_verdict_example :
    ((the_report.chain_consistent ≡ true) ↔ IsLineage digest_a two_upgrades)
    × ((the_report.current_attested ≡ true) ↔ Covered (some sealed_record) digest_a)
    × ((the_report.warnings ≡ []) ↔ (
        (the_report.chain_consistent ≡ true)
        × All (λ (v : VersionRecord). is_some v.attested_by ≡ true) the_report.versions))
build_audit_verdict_example =
    build_audit_verdict digest_a two_upgrades digest_a (some sealed_record) [] (1, 9)

build_audit-EndsCurrent_example :
    NeighboursDiffer the_report.versions × EndsCurrent digest_a the_report.versions
build_audit-EndsCurrent_example =
    build_audit-EndsCurrent digest_a two_upgrades digest_a (some sealed_record) [] (1, 9)
