-- ===== src/Runner/Verify.antt =====
-- `verify` of src/runner.rs.
pub mod Sound
pub mod Rebuild
use sorseal.Base.{
  ℕ, Bool, true, false, not, ◌&&◌, List, [], ◌∷◌, ◌++◌, map, Option, none, some, ◌==◌, text_eq,
  find, contains, all, text, Text, if◌then◌else◌, Result, ok, err, panic, ◌>>=◌, ◌>>◌, with_context,
  Message, msg, txt, Error,
}
use Prim.Native.String.{String}
use sorseal.Interfaces.Files.{Sha256}
use sorseal.Interfaces.Machine.{Machine}
use sorseal.Manifest.{Artifact, Manifest}
use sorseal.Provenance.{GitState, ArtifactProvenance, Provenance}
use sorseal.Runner.Git.{git_state, contains_commit}
use sorseal.Runner.Build.{short, run_build, file_sha256, source_sha256_of}

pub data Outcome : Type 0 where
  pass fail error : Outcome

-- The detail is the format string with its arguments, or the message of an error.
pub record Check : Type 0 where
  pub artifact : Text
  pub check : String
  pub outcome : Outcome
  pub detail : Error

-- `c.outcome == Outcome::Pass`.
unfoldable pub is_pass : Outcome → Bool
is_pass pass = true
is_pass fail = false
is_pass error = false

abbrev pub the_check : Text → String → Outcome → String → List Text → Check
the_check artifact check outcome detail args = record {
  artifact = artifact;
  check = check;
  outcome = outcome;
  detail = msg detail (map txt args) ∷ [];
}

unfoldable pub name_check : Manifest → Provenance → Check
unfolding text
name_check m p =
    if not (p.project == m.project.name)
    then the_check (text "project") "name" fail
        "manifest project '{}' does not match sealed provenance project '{}'"
        (m.project.name ∷ p.project ∷ [])
    else the_check (text "project") "name" pass "manifest project '{}' matches sealed provenance"
        (m.project.name ∷ [])

-- The artifacts of the manifest without a sealed entry.
unfoldable pub gap_checks : List Text → List Artifact → List Check
gap_checks sealed_ids [] = []
gap_checks sealed_ids (ma ∷ rest) =
    let later = gap_checks sealed_ids rest in
    if not (contains ma.id sealed_ids)
    then the_check ma.id "sealed" error
        "manifest artifact '{}' has no entry in the sealed provenance; run `sorseal record` to seal it"
        (ma.id ∷ [])
      ∷ later
    else later

unfoldable pub command_checks : Artifact → ArtifactProvenance → List Check
command_checks ma art =
    if not (ma.build_command == art.command)
    then the_check art.id "command" fail
        "manifest build_command '{}' no longer matches sealed command '{}'; re-run `sorseal record` to re-seal"
        (ma.build_command ∷ art.command ∷ [])
      ∷ []
    else []

-- The check of one rebuilt digest against the sealed one.
unfoldable pub digest_check : Text → String → String → String → Text → Text → Result Check
digest_check id check matches mismatch rebuilt sealed =
    if rebuilt == sealed
    then (do sealed' ← short sealed; ok (the_check id check pass matches (sealed' ∷ [])))
    else (do
      rebuilt' ← short rebuilt
      sealed' ← short sealed
      ok (the_check id check fail mismatch (rebuilt' ∷ sealed' ∷ [])))

-- The detail of the check of the commit.
unfoldable pub git_detail : GitState → Text → Bool → Result Message
git_detail gs commit reachable =
    if not gs.present
    then (do
      sealed ← short commit
      ok (
          msg "provenance was sealed at commit {} but this tree is not a git repository"
            (txt sealed ∷ [])))
    else if gs.commit == commit
    then (do sealed ← short commit; ok (msg "HEAD matches sealed commit {}" (txt sealed ∷ [])))
    else (do
      sealed ← short commit
      head ← short gs.commit
      ok (
          if reachable
          then msg "sealed commit {} is reachable from HEAD {}" (txt sealed ∷ txt head ∷ [])
          else msg "sealed commit {} is not reachable from current HEAD {}"
              (txt sealed ∷ txt head ∷ [])))

-- `unwrap_or(false)`.
abbrev pub or_false : Result Bool → Result Bool
or_false (ok b) = ok b
or_false (err e) = ok false
or_false panic = panic

module _ (M : Machine) (sha : Sha256) where
  unfoldable pub git_checks : M.State → GitState → Result (List Check)
  unfolding text
  git_checks s sealed = if not sealed.present then ok [] else (do
    gs ← git_state M s
    reachable ← (if gs.present then or_false (contains_commit M s sealed.commit) else ok false)
    detail ← git_detail gs sealed.commit reachable
    ok (
        record {
          artifact = text "git";
          check = "commit";
          outcome = if reachable then pass else fail;
          detail = detail ∷ [];
        }
        ∷ []))

  -- The part of the loop's body after a build that ended well.
  unfoldable pub compare_build : M.State → Artifact → ArtifactProvenance → Result (List Check)
  compare_build s ma art =
      if not (M.exists s ma.wasm_path)
      then ok (
          the_check art.id "wasm" error "wasm file not found after rebuild: {}" (ma.wasm_path ∷ [])
          ∷ [])
      else (do
        rebuilt ← file_sha256 M sha s ma.wasm_path
        wasm ←
            digest_check art.id "wasm" "sha256 matches sealed digest {}"
              "sha256 mismatch: rebuilt {}, sealed {}" rebuilt art.wasm_sha256
        rebuilt_src ← source_sha256_of M sha s ma.source_root
        source ←
            digest_check art.id "source" "source tree matches sealed digest {}"
              "source tree digest mismatch: rebuilt {}, sealed {}" rebuilt_src art.source_sha256
        ok (wasm ∷ source ∷ []))

  -- The two arms on what the build gave.
  unfoldable pub after_build :
      M.State → Artifact → ArtifactProvenance → Result (Unit {0}) → Result (List Check)
  after_build s ma art (ok built) = compare_build s ma art
  after_build s ma art (err e) = ok (
      record {
        artifact = art.id;
        check = "build";
        outcome = error;
        detail = msg "rebuild failed: {e:#}" [] ∷ e;
      }
      ∷ [])
  after_build s ma art panic = panic

  -- One turn of the loop over the sealed artifacts.
  unfoldable pub verify_artifact :
      M.State → ArtifactProvenance → Option Artifact → Result (List Check × M.State)
  verify_artifact s art none = ok (
    the_check art.id "manifest" error
          "sealed artifact has no matching [[artifacts]] entry in sorseal.toml" []
        ∷ [],
    s,
  )
  verify_artifact s art (some ma) = do
    let (built, after) = run_build M sha s ma.build_command
    checks ← after_build after ma art built
    ok (command_checks ma art ++ checks, after)

  unfoldable pub verify_artifacts :
      List Artifact → M.State → List ArtifactProvenance → Result (List Check × M.State)
  verify_artifacts mas s [] = ok ([], s)
  verify_artifacts mas s (art ∷ rest) = do
    (checks, next) ← verify_artifact s art (find (λ ma. ma.id == art.id) mas)
    (later, end) ← verify_artifacts mas next rest
    ok (checks ++ later, end)

  -- `verify`, with the state that its builds leave.
  unfoldable pub verify : Manifest → Provenance → M.State → Result ((List Check × Bool) × M.State)
  verify m p s = do
    git ← git_checks s p.git
    (checks, end) ← verify_artifacts m.artifacts s p.artifacts
    let gaps = gap_checks (map (λ a. a.id) p.artifacts) m.artifacts
    let all_checks = name_check m p ∷ (git ++ (gaps ++ checks))
    ok ((all_checks, all (λ c. is_pass c.outcome) all_checks), end)
