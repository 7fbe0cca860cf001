-- ===== src/Audit/Lineage/Versions.antt =====
-- The versions of the report.
use sorseal.Base.{
  ℕ, ◌≡◌, ◌≢◌, refl, ◌∙◌, ap, Bool, true, false, ◌||◌, List, [], ◌∷◌, map, Option, inl, inr, arith,
  ◌==◌, ==_iff, text_eq, Bool-cases, Text, any,
}
use sorseal.Provenance.{Provenance}
use sorseal.Audit.Event.{UpgradeEvent}
use sorseal.Audit.Lineage.{
  VersionRecord, versions_from, all_versions, collapse_from, collapse_noops, attest, build_audit,
}

-- Neighbours differ in their hash.
abbrev pub NeighboursDiffer : List VersionRecord → Type 0
NeighboursDiffer [] = Unit
NeighboursDiffer (v ∷ []) = Unit
NeighboursDiffer (v ∷ w ∷ l) = (v.wasm ≢ w.wasm) × NeighboursDiffer (w ∷ l)

-- The last version is the current one, with this hash, and no other is.
abbrev pub EndsCurrent : Text → List VersionRecord → Type 0
EndsCurrent wasm [] = ⊥
EndsCurrent wasm (v ∷ []) = (v.current ≡ true) × (v.wasm ≡ wasm)
EndsCurrent wasm (v ∷ w ∷ l) = (v.current ≡ false) × EndsCurrent wasm (w ∷ l)

versions_from-EndsCurrent :
    (c : Text) (e : UpgradeEvent) (l : List UpgradeEvent) → EndsCurrent c (versions_from c e l)
unfolding versions_from
versions_from-EndsCurrent c e [] = ground (arith, ==_iff e.new_wasm c)
versions_from-EndsCurrent c e (f ∷ []) = ground (arith, versions_from-EndsCurrent c f [])
versions_from-EndsCurrent c e (f ∷ g ∷ l) = (refl, versions_from-EndsCurrent c f (g ∷ l))

all_versions-EndsCurrent : (c : Text) (l : List UpgradeEvent) → EndsCurrent c (all_versions c l)
unfolding all_versions
all_versions-EndsCurrent c [] = (refl, refl)
all_versions-EndsCurrent c (e ∷ []) = ground (arith, versions_from-EndsCurrent c e [])
all_versions-EndsCurrent c (e ∷ f ∷ l) = (refl, versions_from-EndsCurrent c e (f ∷ l))

cons-EndsCurrent :
    (c : Text) (v : VersionRecord) (l : List VersionRecord)
    → v.current ≡ false
    → EndsCurrent c l
    → EndsCurrent c (v ∷ l)
cons-EndsCurrent c v [] p h = absurd h
cons-EndsCurrent c v (w ∷ l) p h = (p, h)

collapse_from-EndsCurrent :
    (c : Text) (prev : VersionRecord) (l : List VersionRecord)
    → EndsCurrent c (prev ∷ l)
    → EndsCurrent c (collapse_from prev l)
unfolding collapse_from
collapse_from-EndsCurrent c prev [] h = h
collapse_from-EndsCurrent c prev (v ∷ l) h = elim (Bool-cases (prev.wasm == v.wasm)) [
  | inl same ↦ rw (same, collapse_from) (collapse_from-EndsCurrent c _ l (merged same l h))
  | inr other ↦
      rw (other, collapse_from)
        (cons-EndsCurrent c prev _ h.0 (collapse_from-EndsCurrent c v l h.1))
]
  where
    merged :
        prev.wasm == v.wasm ≡ true
        → (l : List VersionRecord) → EndsCurrent c (prev ∷ v ∷ l)
        → EndsCurrent c
            (record prev { live_until = v.live_until; current = prev.current || v.current } ∷ l)
    merged same [] h = ground (arith, ==_iff prev.wasm v.wasm)
    merged same (w ∷ l) h = ground (arith, ==_iff prev.wasm v.wasm)

-- Merging keeps the hash of the version that it starts from at the head.
collapse_from-head :
    (prev : VersionRecord) (l : List VersionRecord)
    → (v : VersionRecord) × (t : List VersionRecord) × (collapse_from prev l ≡ v ∷ t)
      × (v.wasm ≡ prev.wasm)
unfolding collapse_from
collapse_from-head prev [] = (prev, [], refl, refl)
collapse_from-head prev (v ∷ l) = elim (Bool-cases (prev.wasm == v.wasm)) [
  | inl same ↦
      rw (same, collapse_from)
        (collapse_from-head
          (record prev { live_until = v.live_until; current = prev.current || v.current }) l)
  | inr other ↦ rw (other, collapse_from) (prev, collapse_from v l, refl, refl)
]

collapse_from-NeighboursDiffer :
    (prev : VersionRecord) (l : List VersionRecord) → NeighboursDiffer (collapse_from prev l)
unfolding collapse_from
collapse_from-NeighboursDiffer prev [] = tt
collapse_from-NeighboursDiffer prev (v ∷ l) = elim (Bool-cases (prev.wasm == v.wasm)) [
  | inl same ↦ rw (same, collapse_from) (collapse_from-NeighboursDiffer _ l)
  | inr other ↦
      let (w, t, e, same_head) = collapse_from-head v l in
      rw (other, collapse_from)
        (rw e
          (ground (arith, ==_iff prev.wasm v.wasm), rw e at (collapse_from-NeighboursDiffer v l)))
]

-- Whether a hash was ever deployed.
abbrev pub ever : Text → List VersionRecord → Bool
ever h = any (λ (v : VersionRecord). v.wasm == h)

collapse_from-ever :
    (h : Text) (prev : VersionRecord) (l : List VersionRecord)
    → ever h (collapse_from prev l) ≡ ever h (prev ∷ l)
unfolding collapse_from
collapse_from-ever h prev [] = refl
collapse_from-ever h prev (v ∷ l) = elim (Bool-cases (prev.wasm == v.wasm)) [
  | inl same ↦
      rw (same, collapse_from)
        (collapse_from-ever h _ l
          ∙ ground (arith, ==_iff prev.wasm v.wasm, ==_iff prev.wasm h, ==_iff v.wasm h))
  | inr other ↦ rw (other, collapse_from) (ap (λ b. prev.wasm == h || b) (collapse_from-ever h v l))
]

-- For every list of versions: after merging no two neighbours have the same hash, and the same
-- hashes occur as before.
pub collapse_noops-NeighboursDiffer :
    (l : List VersionRecord)
    → NeighboursDiffer (collapse_noops l) × ((h : Text) → ever h (collapse_noops l) ≡ ever h l)
unfolding collapse_noops
collapse_noops-NeighboursDiffer [] = (tt, λ h. refl)
collapse_noops-NeighboursDiffer (v ∷ l) =
    (collapse_from-NeighboursDiffer v l, λ h. collapse_from-ever h v l)

collapse_noops-EndsCurrent :
    (c : Text) (l : List VersionRecord) → EndsCurrent c l → EndsCurrent c (collapse_noops l)
unfolding collapse_noops
collapse_noops-EndsCurrent c [] h = h
collapse_noops-EndsCurrent c (v ∷ l) h = collapse_from-EndsCurrent c v l h

module _ (provenance : Option Provenance) where
  attest-EndsCurrent :
      (c : Text) (l : List VersionRecord)
      → EndsCurrent c l
      → EndsCurrent c (map (attest provenance) l)
  unfolding attest
  attest-EndsCurrent c [] h = h
  attest-EndsCurrent c (v ∷ []) h = h
  attest-EndsCurrent c (v ∷ w ∷ l) h = (h.0, attest-EndsCurrent c (w ∷ l) h.1)

  attest-NeighboursDiffer :
      (l : List VersionRecord) → NeighboursDiffer l → NeighboursDiffer (map (attest provenance) l)
  unfolding attest
  attest-NeighboursDiffer [] h = h
  attest-NeighboursDiffer (v ∷ []) h = h
  attest-NeighboursDiffer (v ∷ w ∷ l) h = (h.0, attest-NeighboursDiffer (w ∷ l) h.1)

pub collapsed-EndsCurrent :
    (c : Text) (l : List UpgradeEvent) → EndsCurrent c (collapse_noops (all_versions c l))
collapsed-EndsCurrent c l = collapse_noops-EndsCurrent c _ (all_versions-EndsCurrent c l)

-- The versions of a report: neighbours have different hashes, and exactly one version is current,
-- the last one, with the hash that is deployed.
pub build_audit-EndsCurrent :
    (contract_hex : Text) (events : List UpgradeEvent) (current_wasm : Text)
    (provenance : Option Provenance) (rpc_url : Text) (scan_window : ℕ × ℕ)
    → let report = build_audit contract_hex events current_wasm provenance rpc_url scan_window in
      NeighboursDiffer report.versions × EndsCurrent current_wasm report.versions
unfolding build_audit
build_audit-EndsCurrent contract_hex events c provenance rpc_url scan_window =
    let versions = collapse_noops (all_versions c events) in
    (
      attest-NeighboursDiffer provenance versions
          (collapse_noops-NeighboursDiffer (all_versions c events)).0,
      attest-EndsCurrent provenance c versions (collapsed-EndsCurrent c events),
    )
