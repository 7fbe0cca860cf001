-- ===== src/Runner/Build.antt =====
-- `record` of src/runner.rs, and what it shares with `verify`.
use sorseal.Base.{
  ℕ, ◌-◌, Bool, not, ◌&&◌, List, [], ◌∷◌, text_eq, text, Text, trim, if◌then◌else◌, Result, ok,
  panic, ◌>>=◌, ◌>>◌, bail_if, with_context, txt, ltb, utf8_width, byte_len,
}
use sorseal.Interfaces.Files.{Sha256}
use sorseal.Interfaces.Machine.{Output, Machine}
use sorseal.Digest.Hex.{hex}
use sorseal.Digest.Tree.{tree_sha256}
use sorseal.Clock.{utc_rfc3339}
use sorseal.Manifest.{Artifact, Manifest}
use sorseal.Provenance.{ArtifactProvenance, Provenance, format_name, format_version}
use sorseal.Runner.Git.{git_state}

-- `&hex[..n]`: the characters of the first `n` bytes. It panics where no character ends at that byte.
unfoldable pub prefix : ℕ → Text → Result Text
prefix n [] = if ltb 0 n then panic else ok []
prefix n (c ∷ s) =
    let rest = prefix (n - utf8_width c) s in
    if ltb 0 n then if ltb n (utf8_width c) then panic else (do p ← rest; ok (c ∷ p)) else ok []

unfoldable pub short : Text → Result Text
unfolding prefix
short hex = if ltb 12 (byte_len hex) then prefix 12 hex else ok hex

module _ (M : Machine) (sha : Sha256) where
  unfoldable pub toolchain_of : Result Output → Text
  unfolding text
  toolchain_of (ok out) = if out.success then trim out.stdout else text "unknown"
  toolchain_of _ = text "unknown"

  unfoldable pub toolchain : M.State → Text
  unfolding toolchain_of
  toolchain s = toolchain_of (M.rustc_version s)

  unfoldable pub run_build : M.State → Text → Result (Unit {0}) × M.State
  run_build s command =
      let (status, after) = M.shell s command in
      (
        (do
          success ←
              with_context status "failed to spawn build command: {command}" (txt command ∷ [])
          bail_if (not success) "build command exited with {status}: {command}" (txt command ∷ [])),
        after,
      )

  -- `digest::file_sha256`.
  unfoldable pub file_sha256 : M.State → Text → Result Text
  file_sha256 s path = do bytes ← M.read s path; ok (hex (sha bytes))

  unfoldable pub source_sha256_of : M.State → Text → Result Text
  source_sha256_of s path = tree_sha256 sha (M.entries s path)

  -- One turn of the loop of `record`.
  unfoldable pub record_artifact : M.State → Artifact → Result (ArtifactProvenance × M.State)
  record_artifact before a = do
    let (built, s) = run_build before a.build_command
    with_context built "artifact '{}': build failed" (txt a.id ∷ [])
    bail_if (not (M.exists s a.wasm_path)) "artifact '{}': wasm file not found after build: {}"
        (txt a.id ∷ txt a.wasm_path ∷ [])
    wasm_sha256 ←
        with_context (file_sha256 s a.wasm_path) "artifact '{}': failed to hash {}"
          (txt a.id ∷ txt a.wasm_path ∷ [])
    wasm_size ← M.size s a.wasm_path
    bail_if (not (M.is_dir s a.source_root)) "artifact '{}': source_root is not a directory: {}"
        (txt a.id ∷ txt a.source_root ∷ [])
    source_sha256 ←
        with_context (source_sha256_of s a.source_root) "artifact '{}': failed to hash source tree"
          (txt a.id ∷ [])
    ok (
      record {
        id = a.id;
        command = a.build_command;
        wasm_path = a.wasm_path;
        wasm_sha256 = wasm_sha256;
        wasm_size = wasm_size;
        source_root = a.source_root;
        source_sha256 = source_sha256;
        built_at = utc_rfc3339 (M.now s);
      },
      s,
    )

  unfoldable pub record_artifacts :
      M.State → List Artifact → Result (List ArtifactProvenance × M.State)
  unfolding record_artifact
  record_artifacts s [] = ok ([], s)
  record_artifacts s (a ∷ rest) = do
    (sealed, next) ← record_artifact s a
    (later, end) ← record_artifacts next rest
    ok (sealed ∷ later, end)

  -- `record`, with the state that its builds leave.
  unfoldable pub record_provenance : Manifest → Bool → M.State → Result (Provenance × M.State)
  unfolding record_artifacts toolchain
  record_provenance manifest allow_dirty s = do
    gs ← git_state M s
    bail_if (gs.present && not gs.clean && not allow_dirty)
        "working tree has uncommitted changes; commit first or pass --allow-dirty (a sealed record must describe the exact committed source)"
        []
    (artifacts, end) ← record_artifacts s manifest.artifacts
    ok (
      record {
        format = format_name;
        version = format_version;
        project = manifest.project.name;
        toolchain = toolchain end;
        git = gs;
        artifacts = artifacts;
        analysis = [];
      },
      end,
    )
