-- ===== src/Runner/Verify/Rebuild.antt =====
-- What `record` of src/runner.rs seals, `verify` finds again, where builds can be repeated.
pub mod Parts
pub mod Builds
use sorseal.Base.{
  ℕ, ◌≡◌, ◌≢◌, refl, ap, Bool, true, false, not, ◌&&◌, List, [], ◌∷◌, ◌++◌, map, some, ◌==◌, ==_iff,
  ==_refl, text_eq, find, contains, All, Text, if◌then◌else◌, ok, Bool-cases, inl, inr, arith, txt,
  text, msg, Message,
}
use Prim.Native.String.{String}
use sorseal.Interfaces.Files.{Sha256}
use sorseal.Interfaces.Machine.{Machine}
use sorseal.Clock.{utc_rfc3339}
use sorseal.Manifest.{Artifact, Manifest}
use sorseal.Manifest.Valid.{DistinctIds}
use sorseal.Provenance.{GitState, ArtifactProvenance, Provenance, format_name, format_version}
use sorseal.Runner.Git.{git_state, contains_commit}
use sorseal.Runner.Build.{
  short, run_build, file_sha256, source_sha256_of, record_artifact, record_artifacts,
  record_provenance, toolchain,
}
use sorseal.Runner.Verify.{
  pass, Check, is_pass, the_check, name_check, gap_checks, command_checks, digest_check, git_detail,
  or_false, git_checks, compare_build, after_build, verify_artifact, verify_artifacts, verify,
}
use sorseal.Runner.Verify.Sound.Parts.{all_pass}
use sorseal.Runner.Verify.Rebuild.Parts.{
  Shortens, Found, DistinctIds-Found, append-all_pass, gap_checks-nil, name_check-same,
  git_detail-reachable,
}
use sorseal.Runner.Verify.Rebuild.Builds.{
  Repeats, AllSeal, record_artifacts-Seal, verify_artifacts-Seal, ids-AllSeal,
}

module _ (M : Machine) (sha : Sha256) (Reached : M.State → Type 0) where
  -- The repository is there, and the sealed commit stays reachable.
  pub record GitKeeps (sealed : GitState) (s : M.State) : Type 0 where
    pub now : GitState
    pub now_is : git_state M s ≡ ok now
    pub present : now.present ≡ true
    pub reachable : contains_commit M s sealed.commit ≡ ok true
    pub sealed_shortens : Shortens sealed.commit
    pub now_shortens : Shortens now.commit

  git_checks-GitKeeps :
      (sealed : GitState) (s : M.State)
      → (sealed.present ≡ true → GitKeeps sealed s)
      → (cs : List Check) × (git_checks M sha s sealed ≡ ok cs) × (all_pass cs ≡ true)
  unfolding git_checks is_pass text
  git_checks-GitKeeps sealed s keeps = elim (Bool-cases sealed.present) [
    | inr absent ↦ ([], rw (absent, git_checks) refl, refl)
    | inl there ↦
        let k = keeps there in
        let (detail, given) =
          git_detail-reachable k.now sealed.commit k.present k.sealed_shortens k.now_shortens in
        let reach : (if k.now.present
              then or_false (contains_commit M s sealed.commit)
              else ok false)
            ≡ ok true =
          rw (k.present) (rw (k.reachable) refl) in
        (
          record { artifact = text "git"; check = "commit"; outcome = pass; detail = detail ∷ [] }
              ∷ [],
          rw (there, git_checks) (rw (k.now_is) (rw reach (rw given refl))),
          refl,
        )
  ]

-- Where builds can be repeated (from every state that they can reach the build of each artifact ends well in such a
-- state, with the same digests), the sealed commit stays reachable, `short` can cut the digests and commits, and the
-- tree is clean or may be dirty: `record` seals a manifest with distinct ids, and `verify` of that record, after it,
-- returns that all checks pass.
pub verify-record_provenance :
    (M : Machine) (sha : Sha256) (Reached : M.State → Type 0) (m : Manifest) (allow_dirty : Bool)
    (s : M.State) (gs : GitState)
    → Reached s
    → All (Repeats M sha Reached) m.artifacts
    → DistinctIds m.artifacts
    → git_state M s ≡ ok gs
    → (gs.present && not gs.clean && not allow_dirty) ≡ false
    → ((t : M.State) → Reached t → gs.present ≡ true → GitKeeps M sha Reached gs t)
    → (p : Provenance) × (end : M.State) × (checks : List Check) × (end' : M.State)
      × (record_provenance M sha m allow_dirty s ≡ ok (p, end))
      × (verify M sha m p end ≡ ok ((checks, true), end'))
unfolding record_provenance verify
verify-record_provenance M sha Reached m allow_dirty s gs reached rs distinct git_is clean keeps =
    let (arts, end, recorded, sealed, reached') =
      record_artifacts-Seal M sha Reached m.artifacts rs s reached in
    let (cs, end', verified, passes) =
      verify_artifacts-Seal M sha Reached m.artifacts m.artifacts rs arts end
        (DistinctIds-Found m.artifacts distinct) sealed reached' in
    let (git, git_ok, git_passes) = git_checks-GitKeeps M sha Reached gs end (keeps end reached') in
    let gaps : gap_checks (map (λ a. a.id) arts) m.artifacts ≡ [] =
      gap_checks-nil _ m.artifacts
        (λ a k. rw (ids-AllSeal M sha Reached m.artifacts rs arts sealed) k) in
    let p : Provenance = record {
      format = format_name;
      version = format_version;
      project = m.project.name;
      toolchain = toolchain M sha end;
      git = gs;
      artifacts = arts;
      analysis = [];
    } in
    let checks : List Check =
      name_check m p ∷ (git ++ (gap_checks (map (λ a. a.id) arts) m.artifacts ++ cs)) in
    let rest : List Check = gap_checks (map (λ a. a.id) arts) m.artifacts ++ cs in
    let rest_right : all_pass rest ≡ true = rw gaps passes in
    let all_right : all_pass checks ≡ true =
      ground (arith, name_check-same m p refl, append-all_pass git rest git_passes rest_right) in
    (
      p,
      end,
      checks,
      end',
      rw git_is (rw clean (rw recorded refl)),
      rw git_ok (rw verified (ap (λ b. ok ((checks, b), end')) all_right)),
    )
