-- ===== src/Audit/Lineage/Verdict.antt =====
-- What the flags and warnings of the report mean.
use sorseal.Base.{
  ℕ, ◌≡◌, ◌↔◌, refl, ◌++◌, true, not, ◌&&◌, List, [], ◌∷◌, map, Option, none, some, arith,
  if◌then◌else◌, ==_iff, text_eq, Text, any, find, All, Any, Message, to_ascii_lowercase,
}
use sorseal.Provenance.{ArtifactProvenance, Provenance}
use sorseal.Audit.Event.{UpgradeEvent}
use sorseal.Audit.Lineage.{
  VersionRecord, is_nil, chain_gaps, has_gap, collapse_noops, all_versions, same_hash,
  matching_artifact, attest, is_some, attested_current, unattested, gap_warning, build_audit,
}
use sorseal.Audit.Lineage.Versions.{EndsCurrent, collapsed-EndsCurrent}

-- Each upgrade starts from the hash that the one before it brought, and the last one brought the
-- hash that is deployed.
abbrev pub IsLineage : Text → List UpgradeEvent → Type 0
IsLineage c [] = Unit
IsLineage c (e ∷ []) = e.new_wasm ≡ c
IsLineage c (e ∷ f ∷ l) = (e.new_wasm ≡ f.old_wasm) × IsLineage c (f ∷ l)

IsLineage-iff :
    (c : Text) (l : List UpgradeEvent)
    → ((is_nil (chain_gaps l) && not (has_gap c l)) ≡ true) ↔ IsLineage c l
unfolding chain_gaps has_gap
IsLineage-iff c [] = ground arith
IsLineage-iff c (e ∷ []) = ground (arith, ==_iff e.new_wasm c)
IsLineage-iff c (e ∷ f ∷ l) = ground (arith, ==_iff e.new_wasm f.old_wasm, IsLineage-iff c (f ∷ l))

-- Some sealed artifact has the hash, whatever the case of its digits.
abbrev pub Covered : Option Provenance → Text → Type 0
Covered none h = ⊥
Covered (some p) h =
    Any (λ (a : ArtifactProvenance). to_ascii_lowercase a.wasm_sha256 ≡ to_ascii_lowercase h)
      p.artifacts

find-Any :
    (h : Text) (l : List ArtifactProvenance)
    → (is_some (find (λ (a : ArtifactProvenance). same_hash a.wasm_sha256 h) l) ≡ true)
      ↔ Any (λ (a : ArtifactProvenance). to_ascii_lowercase a.wasm_sha256 ≡ to_ascii_lowercase h) l
unfolding same_hash
find-Any h [] = ground arith
find-Any h (a ∷ l) =
    ground (arith, ==_iff (to_ascii_lowercase a.wasm_sha256) (to_ascii_lowercase h), find-Any h l)

attested_iff :
    (provenance : Option Provenance) (v : VersionRecord)
    → (is_some (attest provenance v).attested_by ≡ true) ↔ Covered provenance v.wasm
unfolding attest matching_artifact
attested_iff none v = ground arith
attested_iff (some p) v = ground (arith, find-Any v.wasm p.artifacts)

attested_current_one :
    (provenance : Option Provenance) (v : VersionRecord)
    → attested_current (attest provenance v)
      ≡ (v.current && is_some (attest provenance v).attested_by)
unfolding attest
attested_current_one provenance v = refl

attested_current_iff :
    (provenance : Option Provenance) (c : Text) (l : List VersionRecord)
    → EndsCurrent c l
    → (any attested_current (map (attest provenance) l) ≡ true) ↔ Covered provenance c
attested_current_iff provenance c [] h = absurd h
attested_current_iff provenance c (v ∷ []) h = rw (← h.1) (
    let e = attested_current_one provenance v in
    let f = attested_iff provenance v in
    ((λ p. f.0 (ground (arith, e))), λ p. ground (arith, e, f.1 p, h.0)))
attested_current_iff provenance c (v ∷ w ∷ l) h =
    let e = attested_current_one provenance v in
    let f = attested_current_iff provenance c (w ∷ l) h.1 in
    ((λ p. f.0 (ground (arith, e, h.0))), λ p. ground (arith, e, f.1 p, h.0))

unattested_iff :
    (l : List VersionRecord)
    → (unattested l ≡ []) ↔ All (λ (v : VersionRecord). is_some v.attested_by ≡ true) l
unfolding unattested
unattested_iff [] = ground arith
unattested_iff (v ∷ l) = ground (arith, unattested_iff l)

append-eq-nil : (k l : List Message) → (k ++ l ≡ []) ↔ ((k ≡ []) × (l ≡ []))
append-eq-nil [] l = ground arith
append-eq-nil (x ∷ k) l = ground arith

is_nil_iff : (l : List Message) → (is_nil l ≡ true) ↔ (l ≡ [])
is_nil_iff [] = ground arith
is_nil_iff (x ∷ l) = ground arith

-- The verdict of a report, whatever the events and the provenance: the chain is called consistent
-- exactly when each upgrade starts from the hash of the one before and the last brought the
-- deployed hash; the deployment is called attested exactly when a sealed artifact has its hash; and
-- there is no warning exactly when the chain is consistent and every version is attested.
pub build_audit_verdict :
    (contract_hex : Text) (events : List UpgradeEvent) (current_wasm : Text)
    (provenance : Option Provenance) (rpc_url : Text) (scan_window : ℕ × ℕ)
    → let report = build_audit contract_hex events current_wasm provenance rpc_url scan_window in
      ((report.chain_consistent ≡ true) ↔ IsLineage current_wasm events)
      × ((report.current_attested ≡ true) ↔ Covered provenance current_wasm)
      × ((report.warnings ≡ []) ↔ (
          (report.chain_consistent ≡ true)
          × All (λ (v : VersionRecord). is_some v.attested_by ≡ true) report.versions))
unfolding build_audit
build_audit_verdict contract_hex events c provenance rpc_url scan_window =
    let versions = map (attest provenance) (collapse_noops (all_versions c events)) in
    (
      IsLineage-iff c events,
      attested_current_iff provenance c _ (collapsed-EndsCurrent c events),
      ground (
        arith,
        is_nil_iff (chain_gaps events),
        append-eq-nil (chain_gaps events)
            ((if has_gap c events then gap_warning ∷ [] else []) ++ unattested versions),
        unattested_iff versions,
      ),
    )
