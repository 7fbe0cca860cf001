-- ===== src/Runner/Verify/Rebuild/Builds.antt =====
-- What builds of src/runner.rs that can be repeated leave for `record` and `verify`.
use sorseal.Base.{
  ℕ, ◌≡◌, refl, true, List, [], ◌∷◌, ◌++◌, map, some, ◌==◌, ==_refl, text_eq, find, All, Text, ok,
  arith,
}
use Prim.Native.String.{String}
use sorseal.Interfaces.Files.{Sha256}
use sorseal.Interfaces.Machine.{Machine}
use sorseal.Clock.{utc_rfc3339}
use sorseal.Manifest.{Artifact}
use sorseal.Provenance.{ArtifactProvenance}
use sorseal.Runner.Build.{
  run_build, file_sha256, source_sha256_of, record_artifact, record_artifacts,
}
use sorseal.Runner.Verify.{
  pass, Check, is_pass, the_check, command_checks, digest_check, compare_build, after_build,
  verify_artifact, verify_artifacts,
}
use sorseal.Runner.Verify.Sound.Parts.{all_pass}
use sorseal.Runner.Verify.Rebuild.Parts.{Shortens, Found, append-all_pass}

-- From every state that the builds can reach, the build of the artifact ends well in such a state, where the wasm
-- file exists and has this digest, and the source root is a directory whose tree has that one.
pub record Repeats (M : Machine) (sha : Sha256) (Reached : M.State → Type 0) (a : Artifact)
    : Type 0 where
  pub wasm : Text
  pub size : ℕ
  pub source : Text
  pub wasm_shortens : Shortens wasm
  pub source_shortens : Shortens source
  pub succeeds : (s : M.State) → Reached s → (M.shell s a.build_command).0 ≡ ok true
  pub stays : (s : M.State) → Reached s → Reached (M.shell s a.build_command).1
  pub leaves_wasm :
      (s : M.State) → Reached s → M.exists (M.shell s a.build_command).1 a.wasm_path ≡ true
  pub wasm_is :
      (s : M.State)
      → Reached s
      → file_sha256 M sha (M.shell s a.build_command).1 a.wasm_path ≡ ok wasm
  pub size_is :
      (s : M.State) → Reached s → M.size (M.shell s a.build_command).1 a.wasm_path ≡ ok size
  pub source_is_dir :
      (s : M.State) → Reached s → M.is_dir (M.shell s a.build_command).1 a.source_root ≡ true
  pub source_is :
      (s : M.State)
      → Reached s
      → source_sha256_of M sha (M.shell s a.build_command).1 a.source_root ≡ ok source

module _ (M : Machine) (sha : Sha256) (Reached : M.State → Type 0) where
  -- The entry seals the artifact as its build always leaves it.
  pub record Seals (a : Artifact) (r : Repeats M sha Reached a) (art : ArtifactProvenance)
      : Type 0 where
    pub id : art.id ≡ a.id
    pub command : art.command ≡ a.build_command
    pub wasm : art.wasm_sha256 ≡ r.wasm
    pub source : art.source_sha256 ≡ r.source

  abbrev sealed_as : (a : Artifact) (r : Repeats M sha Reached a) → M.State → ArtifactProvenance
  sealed_as a r s = record {
    id = a.id;
    command = a.build_command;
    wasm_path = a.wasm_path;
    wasm_sha256 = r.wasm;
    wasm_size = r.size;
    source_root = a.source_root;
    source_sha256 = r.source;
    built_at = utc_rfc3339 (M.now s);
  }

  abbrev after : M.State → Artifact → M.State
  after s a = (M.shell s a.build_command).1

  record_artifact-Seals :
      (a : Artifact) (r : Repeats M sha Reached a) (s : M.State)
      → Reached s
      → (record_artifact M sha s a ≡ ok (sealed_as a r (after s a), after s a))
        × Seals a r (sealed_as a r (after s a))
  unfolding record_artifact run_build
  record_artifact-Seals a r s reached = (
    rw (r.succeeds s reached) (
        rw (r.leaves_wasm s reached) (
          rw (r.wasm_is s reached) (
            rw (r.size_is s reached)
              (rw (r.source_is_dir s reached) (rw (r.source_is s reached) refl))))),
    record { id = refl; command = refl; wasm = refl; source = refl },
  )

  -- The entries seal the artifacts, one by one.
  abbrev pub AllSeal :
      (mas : List Artifact) → All (Repeats M sha Reached) mas → List ArtifactProvenance → Type 0
  AllSeal [] rs [] = Unit
  AllSeal (a ∷ mas) rs (art ∷ arts) = Seals a rs.0 art × AllSeal mas rs.1 arts
  AllSeal [] rs (art ∷ arts) = ⊥
  AllSeal (a ∷ mas) rs [] = ⊥

  pub record_artifacts-Seal :
      (mas : List Artifact) (rs : All (Repeats M sha Reached) mas) (s : M.State)
      → Reached s
      → (arts : List ArtifactProvenance) × (end : M.State) × (record_artifacts M sha s mas
          ≡ ok (arts, end))
        × AllSeal mas rs arts
        × Reached end
  unfolding record_artifacts
  record_artifacts-Seal [] rs s reached = ([], s, refl, tt, reached)
  record_artifacts-Seal (a ∷ mas) rs s reached =
      let (done, seals) = record_artifact-Seals a rs.0 s reached in
      let (arts, end, later, sealed, reached') =
        record_artifacts-Seal mas rs.1 (after s a) (rs.0.stays s reached) in
      (
        sealed_as a rs.0 (after s a) ∷ arts,
        end,
        rw (done) (rw later refl),
        (seals, sealed),
        reached',
      )

  digest_check-same :
      (id : Text) (check matches mismatch : String) (d : Text)
      → Shortens d
      → (c : Check) × (digest_check id check matches mismatch d d ≡ ok c)
        × (is_pass c.outcome ≡ true)
  unfolding digest_check is_pass
  digest_check-same id check matches mismatch d (t, h) =
      (the_check id check pass matches (t ∷ []), rw (==_refl d, digest_check) (rw h refl), refl)

  verify_artifact-Seals :
      (a : Artifact) (r : Repeats M sha Reached a) (art : ArtifactProvenance) (s : M.State)
      → Seals a r art
      → Reached s
      → (cs : List Check) × (verify_artifact M sha s art (some a) ≡ ok (cs, after s a))
        × (all_pass cs ≡ true)
  unfolding verify_artifact run_build after_build compare_build command_checks is_pass
  verify_artifact-Seals a r art s seals reached =
      let (c, wasm, c_pass) =
        digest_check-same art.id "wasm" "sha256 matches sealed digest {}"
          "sha256 mismatch: rebuilt {}, sealed {}" r.wasm r.wasm_shortens in
      let (d, source, d_pass) =
        digest_check-same art.id "source" "source tree matches sealed digest {}"
          "source tree digest mismatch: rebuilt {}, sealed {}" r.source r.source_shortens in
      (
        c ∷ d ∷ [],
        rw (seals.command) (
            rw (==_refl a.build_command) (
              rw (r.succeeds s reached) (
                rw (r.leaves_wasm s reached) (
                  rw (r.wasm_is s reached) (
                    rw (seals.wasm) (
                      rw wasm
                        (rw (r.source_is s reached) (rw (seals.source) (rw source refl))))))))),
        ground arith,
      )

  pub verify_artifacts-Seal :
      (all_mas mas : List Artifact) (rs : All (Repeats M sha Reached) mas)
      (arts : List ArtifactProvenance) (s : M.State)
      → Found all_mas mas
      → AllSeal mas rs arts
      → Reached s
      → (cs : List Check) × (end : M.State) × (verify_artifacts M sha all_mas s arts ≡ ok (cs, end))
        × (all_pass cs ≡ true)
  unfolding verify_artifacts
  verify_artifacts-Seal all_mas [] rs [] s found sealed reached = ([], s, refl, refl)
  verify_artifacts-Seal all_mas [] rs (art ∷ arts) s found sealed reached = absurd sealed
  verify_artifacts-Seal all_mas (a ∷ mas) rs [] s found sealed reached = absurd sealed
  verify_artifacts-Seal all_mas (a ∷ mas) rs (art ∷ arts) s found sealed reached =
      let (cs, done, passes) = verify_artifact-Seals a rs.0 art s sealed.0 reached in
      let (later, end, rest, pass_rest) =
        verify_artifacts-Seal all_mas mas rs.1 arts (after s a) found.1 sealed.1
          (rs.0.stays s reached) in
      let here : find (λ (m : Artifact). m.id == art.id) all_mas ≡ some a =
        rw (sealed.0.id) (found.0) in
      (
        cs ++ later,
        end,
        rw here (rw done (rw rest refl)),
        append-all_pass cs later passes pass_rest,
      )

  -- The ids of the entries are those of the artifacts.
  pub ids-AllSeal :
      (mas : List Artifact) (rs : All (Repeats M sha Reached) mas) (arts : List ArtifactProvenance)
      → AllSeal mas rs arts
      → map (λ a. a.id) arts ≡ map (λ a. a.id) mas
  ids-AllSeal [] rs [] sealed = refl
  ids-AllSeal [] rs (art ∷ arts) sealed = absurd sealed
  ids-AllSeal (a ∷ mas) rs [] sealed = absurd sealed
  ids-AllSeal (a ∷ mas) rs (art ∷ arts) sealed =
      rw (sealed.0.id, ids-AllSeal mas rs.1 arts sealed.1) refl
