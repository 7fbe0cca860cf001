-- ===== src/Provenance.antt =====
-- src/provenance.rs: the sealed record and its structural validation.
pub mod Valid
pub mod File
pub mod Loaded
use sorseal.Base.{
  ℕ, Bool, true, false, not, ◌&&◌, List, [], ◌∷◌, nat_beq, ◌==◌, text_eq, all, text, Text, byte_len,
  trim, is_ascii_hexdigit, Result, ok, err, panic, ◌>>=◌, ◌>>◌, bail_if, txt, num,
}

pub record GitState : Type 0 where
  pub present : Bool
  pub commit : Text
  pub clean : Bool

pub record ArtifactProvenance : Type 0 where
  pub id : Text
  pub command : Text
  pub wasm_path : Text
  pub wasm_sha256 : Text
  pub wasm_size : ℕ
  pub source_root : Text
  pub source_sha256 : Text
  pub built_at : Text

pub record ArtifactAnalysis : Type 0 where
  pub id : Text
  pub findings : ℕ
  pub worst_severity : Text
  pub digest : Text
  pub analyzed_at : Text

pub record Provenance : Type 0 where
  pub format : Text
  pub version : ℕ
  pub project : Text
  pub toolchain : Text
  pub git : GitState
  pub artifacts : List ArtifactProvenance
  pub analysis : List ArtifactAnalysis

-- The constants FORMAT and VERSION.
unfoldable pub format_name : Text
unfolding text
format_name = text "sorseal-provenance"

abbrev pub format_version : ℕ
format_version = 1

-- `s.trim().is_empty()`.
unfoldable pub is_blank : Text → Bool
is_blank s = trim s == []

unfoldable pub is_hex64 : Text → Bool
is_hex64 s = nat_beq (byte_len s) 64 && all is_ascii_hexdigit s

unfoldable pub validate_artifacts : List ArtifactProvenance → Result (Unit {0})
validate_artifacts [] = ok tt
validate_artifacts (a ∷ rest) = do
  bail_if (not (is_hex64 a.wasm_sha256)) "artifact '{}': wasm_sha256 '{}' is not 64 hex chars"
      (txt a.id ∷ txt a.wasm_sha256 ∷ [])
  bail_if (not (is_hex64 a.source_sha256)) "artifact '{}': source_sha256 '{}' is not 64 hex chars"
      (txt a.id ∷ txt a.source_sha256 ∷ [])
  validate_artifacts rest

unfoldable pub validate_analysis : List ArtifactAnalysis → Result (Unit {0})
validate_analysis [] = ok tt
validate_analysis (a ∷ rest) = do
  bail_if (not (is_hex64 a.digest)) "artifact '{}': analysis digest '{}' is not 64 hex chars"
      (txt a.id ∷ txt a.digest ∷ [])
  validate_analysis rest

unfoldable pub validate : Provenance → Result (Unit {0})
unfolding validate_artifacts validate_analysis
validate p = do
  bail_if (not (p.format == format_name))
      "unrecognized provenance format '{}' (expected '{FORMAT}')" (txt p.format ∷ [])
  bail_if (not (nat_beq p.version format_version))
      "unsupported provenance version {} (expected {VERSION})" (num p.version ∷ [])
  bail_if (is_blank p.project) "provenance.project must not be empty" []
  bail_if (p.git.present && is_blank p.git.commit)
      "provenance records a git commit but the commit is empty" []
  validate_artifacts p.artifacts
  validate_analysis p.analysis
