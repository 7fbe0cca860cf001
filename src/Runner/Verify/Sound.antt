-- ===== src/Runner/Verify/Sound.antt =====
-- What it means that `verify` of src/runner.rs passes.
pub mod Parts
use sorseal.Base.{
  ◌≡◌, refl, ap, Bool, true, false, not, List, [], ◌∷◌, ◌++◌, map, Option, none, some, ◌==◌, ==_iff,
  text_eq, find, contains, all, All, Text, if◌then◌else◌, Result, ok, err, panic, ◌>>=◌,
  with_context, bail_if, Ensures, Ensures-bind, Ensures-after, Ensures-weaken, Bool-cases,
  Result-cases, inl, inr, arith, subst, txt,
}
use sorseal.Interfaces.Files.{Sha256}
use sorseal.Interfaces.Machine.{Machine}
use sorseal.Manifest.{Artifact, Manifest}
use sorseal.Provenance.{GitState, ArtifactProvenance, Provenance}
use sorseal.Runner.Git.{git_state, contains_commit}
use sorseal.Runner.Build.{short, run_build, file_sha256, source_sha256_of}
use sorseal.Runner.Verify.{
  Check, is_pass, name_check, gap_checks, command_checks, digest_check, git_detail, or_false,
  git_checks, compare_build, after_build, verify_artifact, verify_artifacts, verify,
}
use sorseal.Runner.Verify.Sound.Parts.{
  all_pass, Sealed, all_pass-append, digest_check-passes, name_check-passes, command_checks-passes,
  gap_checks-passes, shell-ok, reachable-passes,
}

module _ (M : Machine) (sha : Sha256) where
  -- The digests that the files have are the sealed ones.
  abbrev pub Matches : M.State → Artifact → ArtifactProvenance → Type 0
  Matches s ma art =
      (file_sha256 M sha s ma.wasm_path ≡ ok art.wasm_sha256)
      × (source_sha256_of M sha s ma.source_root ≡ ok art.source_sha256)

  -- The sealed command, which is that of the manifest, was run again with success, and what it left has the
  -- sealed digests.
  abbrev pub Vouched : List Artifact → ArtifactProvenance → Type 0
  Vouched mas art =
      (ma : Artifact) × (find (λ m. m.id == art.id) mas ≡ some ma)
      × (ma.build_command ≡ art.command)
      × (before : M.State) × (after : M.State) × (M.shell before art.command ≡ (ok true, after))
      × Matches after ma art

  compare_build-passes :
      (s : M.State) (ma : Artifact) (art : ArtifactProvenance)
      → Ensures (λ cs. all_pass cs ≡ true → Matches s ma art) (compare_build M sha s ma art)
  unfolding compare_build is_pass
  compare_build-passes s ma art = elim (Bool-cases (M.exists s ma.wasm_path)) [
    | inl there ↦
        rw (there, compare_build)
          (elim (Result-cases (file_sha256 M sha s ma.wasm_path)) [
            | inl (rebuilt, hashed) ↦ rw hashed (
                Ensures-bind (λ c. is_pass c.outcome ≡ true → rebuilt ≡ art.wasm_sha256) _ _ _
                  (digest_check-passes _ _ _ _ rebuilt art.wasm_sha256)
                  (λ wasm same. elim (Result-cases (source_sha256_of M sha s ma.source_root)) [
                    | inl (src, walked) ↦ rw walked (
                        Ensures-bind (λ c. is_pass c.outcome ≡ true → src ≡ art.source_sha256) _ _ _
                          (digest_check-passes _ _ _ _ src art.source_sha256)
                          (λ source same_src passes. ground arith))
                    | inr (inl (e, f)) ↦ rw f tt
                    | inr (inr f) ↦ rw f tt
                  ]))
            | inr (inl (e, f)) ↦ rw f tt
            | inr (inr f) ↦ rw f tt
          ])
    | inr gone ↦ rw (gone, compare_build) (λ passes. ground arith)
  ]

  -- `after_build` and the check of the command, on a state that the shell has left.
  after_build-passes :
      (s : M.State) (ma : Artifact) (art : ArtifactProvenance) (r : Result (Unit {0}))
      → Ensures
          (λ cs. all_pass cs ≡ true → (r ≡ ok tt) × Matches s ma art)
          (after_build M sha s ma art r)
  unfolding after_build is_pass
  after_build-passes s ma art (ok built) =
      Ensures-weaken (λ cs. all_pass cs ≡ true → Matches s ma art) _ _
        (λ cs matches passes. (refl, matches passes)) (compare_build-passes s ma art)
  after_build-passes s ma art (err e) = λ passes. ground arith
  after_build-passes s ma art panic = tt

  run_build-ok :
      (s : M.State) (command : Text)
      → (run_build M sha s command).0 ≡ ok tt
      → M.shell s command ≡ (ok true, (run_build M sha s command).1)
  unfolding run_build
  run_build-ok s command ran = shell-ok command (M.shell s command) ran

  verify_artifact-passes :
      (mas : List Artifact) (s : M.State) (art : ArtifactProvenance) (o : Option Artifact)
      → find (λ m. m.id == art.id) mas ≡ o
      → Ensures (λ r. all_pass r.0 ≡ true → Vouched mas art) (verify_artifact M sha s art o)
  unfolding verify_artifact is_pass
  verify_artifact-passes mas s art none found = λ passes. ground arith
  verify_artifact-passes mas s art (some ma) found =
      Ensures-bind
        (λ cs.
          all_pass cs ≡ true
          → ((run_build M sha s ma.build_command).0 ≡ ok tt)
            × Matches (run_build M sha s ma.build_command).1 ma art)
        _ _ _ (after_build-passes _ ma art _)
        (λ cs vouched passes.
          let (same, rest) = all_pass-append (command_checks ma art) cs passes in
          let command = command_checks-passes ma art same in
          let (built, matches) = vouched rest in
          (
            ma,
            found,
            command,
            s,
            _,
            subst (λ c. M.shell s c ≡ (ok true, (run_build M sha s ma.build_command).1)) command
                (run_build-ok s ma.build_command built),
            matches,
          ))

  verify_artifacts-passes :
      (mas : List Artifact) (s : M.State) (arts : List ArtifactProvenance)
      → Ensures
          (λ r. all_pass r.0 ≡ true → All (Vouched mas) arts)
          (verify_artifacts M sha mas s arts)
  unfolding verify_artifacts
  verify_artifacts-passes mas s [] = λ passes. tt
  verify_artifacts-passes mas s (art ∷ rest) =
      Ensures-bind (λ r. all_pass r.0 ≡ true → Vouched mas art) _ _ _
        (verify_artifact-passes mas s art _ refl)
        (λ r here.
          Ensures-bind (λ r'. all_pass r'.0 ≡ true → All (Vouched mas) rest) _ _ _
            (verify_artifacts-passes mas r.1 rest)
            (λ r' later passes.
              let (now, then_) = all_pass-append r.0 r'.0 passes in (here now, later then_)))

  git_checks-passes :
      (s : M.State) (g : GitState)
      → Ensures
          (λ cs. all_pass cs ≡ true → g.present ≡ true → contains_commit M s g.commit ≡ ok true)
          (git_checks M sha s g)
  unfolding git_checks is_pass
  git_checks-passes s g = elim (Bool-cases g.present) [
    | inl there ↦
        rw (there, git_checks)
          (Ensures-after _ (git_state M s) _ (λ gs.
            Ensures-bind (λ b. b ≡ true → contains_commit M s g.commit ≡ ok true) _ _ _
              (reachable-passes gs.present (contains_commit M s g.commit))
              (λ b reached.
                Ensures-after _ (git_detail gs g.commit b) _
                  (λ detail passes present. ground arith))))
    | inr absent ↦ rw (absent, git_checks) (λ passes present. ground arith)
  ]

  abbrev pub AllVouched : Manifest → Provenance → M.State → Type 0
  AllVouched m p s =
      (p.project ≡ m.project.name)
      × (p.git.present ≡ true → contains_commit M s p.git.commit ≡ ok true)
      × Sealed (map (λ a. a.id) p.artifacts) m.artifacts
      × All (Vouched m.artifacts) p.artifacts

  verify-passes :
      (m : Manifest) (p : Provenance) (s : M.State)
      → Ensures (λ r. r.0.1 ≡ true → AllVouched m p s) (verify M sha m p s)
  unfolding verify
  verify-passes m p s =
      Ensures-bind
        (λ cs.
          all_pass cs ≡ true → p.git.present ≡ true → contains_commit M s p.git.commit ≡ ok true)
        _ _ _ (git_checks-passes s p.git)
        (λ git reached.
          Ensures-bind (λ r. all_pass r.0 ≡ true → All (Vouched m.artifacts) p.artifacts) _ _ _
            (verify_artifacts-passes m.artifacts s p.artifacts)
            (λ r vouched passes.
              let ids : List Text = map (λ a. a.id) p.artifacts in
              let gaps : List Check = gap_checks ids m.artifacts in
              let (name, tail) =
                all_pass-append (name_check m p ∷ []) (git ++ (gaps ++ r.0)) passes in
              let (commit, rest) = all_pass-append git (gaps ++ r.0) tail in
              let (covered, builds) = all_pass-append gaps r.0 rest in
              (
                name_check-passes m p (ground (arith, name)),
                reached commit,
                gap_checks-passes ids m.artifacts covered,
                vouched builds,
              )))

-- Where `verify` returns that all checks pass, the project is the sealed one, the sealed commit (where there is
-- one) is reachable from HEAD, every artifact of the manifest has a sealed entry, and for every sealed entry the
-- manifest still has its command, which was run again with success and left a wasm file and a source tree with
-- the sealed digests.
pub verify-Vouched :
    (M : Machine) (sha : Sha256) (m : Manifest) (p : Provenance) (s end : M.State)
    (checks : List Check)
    → verify M sha m p s ≡ ok ((checks, true), end)
    → AllVouched M sha m p s
verify-Vouched M sha m p s end checks ran =
    subst (Ensures (λ r. r.0.1 ≡ true → AllVouched M sha m p s)) ran (verify-passes M sha m p s)
      refl
