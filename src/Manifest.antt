-- ===== src/Manifest.antt =====
-- src/manifest.rs: the manifest and its validation.
pub mod Valid
use sorseal.Base.{
  ℕ, Bool, true, false, not, ◌&&◌, ◌||◌, List, [], ◌∷◌, nat_beq, ◌==◌, text_eq, any, contains, text,
  Text, trim, if◌then◌else◌, Result, ok, err, panic, ◌>>=◌, ◌>>◌, bail_if, txt,
}
use Prim.Native.String.{String}
use sorseal.Provenance.{is_blank}

pub record Project : Type 0 where
  pub name : Text

-- A `PathBuf` is its text, on Unix.
pub record Artifact : Type 0 where
  pub id : Text
  pub build_command : Text
  pub wasm_path : Text
  pub source_root : Text

pub record Manifest : Type 0 where
  pub project : Project
  pub artifacts : List Artifact

-- Puts a character in front of a path that is split already.
unfoldable pub push_char : Bool → ℕ → List Text → List Text
push_char true c l = [] ∷ l
push_char false c [] = (c ∷ []) ∷ []
push_char false c (w ∷ l) = (c ∷ w) ∷ l

-- The segments between the slashes. `components` gives the same, less the empty ones and `.`.
unfoldable pub segments : Text → List Text
unfolding push_char
segments [] = [] ∷ []
segments (c ∷ s) = push_char (nat_beq c b'/') c (segments s)

-- `Path::is_relative` on Unix.
unfoldable pub is_relative : Text → Bool
is_relative [] = true
is_relative (c ∷ s) = not (nat_beq c b'/')

-- `Vec::is_empty`.
abbrev pub is_empty {ℓ} : {A : Type ℓ} → List A → Bool
is_empty [] = true
is_empty (x ∷ xs) = false

abbrev pub parent_dir : Text
parent_dir = b'.' ∷ b'.' ∷ []

unfoldable pub validate_tree_path : Text → String → Text → Result (Unit {0})
validate_tree_path id field p = do
  bail_if (p == []) "artifact '{id}': '{field}' must not be empty" (txt id ∷ [])
  bail_if (not (is_relative p)) "artifact '{id}': '{field}' must be a relative path, got '{}'"
      (txt id ∷ txt p ∷ [])
  bail_if (contains parent_dir (segments p))
      "artifact '{id}': '{field}' must not contain '..', got '{}'" (txt id ∷ txt p ∷ [])

-- The loop over the artifacts, with the ids that it has seen.
unfoldable pub validate_artifacts : List Text → List Artifact → Result (Unit {0})
validate_artifacts seen [] = ok tt
validate_artifacts seen (a ∷ rest) = do
  bail_if (is_blank a.id) "artifact: 'id' must not be empty" []
  bail_if (contains a.id seen) "manifest: duplicate artifact id '{}'" (txt a.id ∷ [])
  bail_if (is_blank a.build_command) "artifact '{}': 'build_command' must not be empty"
      (txt a.id ∷ [])
  validate_tree_path a.id "wasm_path" a.wasm_path
  validate_tree_path a.id "source_root" a.source_root
  validate_artifacts (a.id ∷ seen) rest

unfoldable pub validate : Manifest → Result (Unit {0})
unfolding validate_artifacts
validate m = do
  bail_if (is_blank m.project.name) "manifest.project.name must not be empty" []
  bail_if (is_empty m.artifacts) "manifest: at least one [[artifacts]] entry is required" []
  validate_artifacts [] m.artifacts
