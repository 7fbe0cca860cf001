-- ===== src/Provenance/Valid.antt =====
-- `Provenance::validate` accepts the well-formed records and no other.
use sorseal.Base.{
  ℕ, ◌≤◌, ◌⊎◌, refl, length, all, text, byte_len, utf8_width, is_ascii_hexdigit, ◌≡◌, ◌↔◌, ◌≢◌,
  true, List, [], ◌∷◌, arith, ==_iff, text_eq, All, Text, ok, trim,
}
use sorseal.Provenance.{
  ArtifactProvenance, ArtifactAnalysis, Provenance, format_name, is_blank, is_hex64,
  validate_artifacts, validate_analysis, validate,
}

-- A digit, or a letter from a to f in lower or upper case.
abbrev pub IsHexDigit : ℕ → Type 0
IsHexDigit c = ((48 ≤ c) × (c ≤ 57)) ⊎ (((97 ≤ c) × (c ≤ 102)) ⊎ ((65 ≤ c) × (c ≤ 70)))

-- 64 characters, each of them a hex digit.
abbrev pub IsHex64 : Text → Type 0
IsHex64 s = (length s ≡ 64) × All IsHexDigit s

abbrev pub HasDigests : ArtifactProvenance → Type 0
HasDigests a = IsHex64 a.wasm_sha256 × IsHex64 a.source_sha256

is_ascii_hexdigit_iff : (c : ℕ) → (is_ascii_hexdigit c ≡ true) ↔ IsHexDigit c
unfolding is_ascii_hexdigit
is_ascii_hexdigit_iff c = ground arith

utf8_width-IsHexDigit : (c : ℕ) → IsHexDigit c → utf8_width c ≡ 1
unfolding utf8_width
utf8_width-IsHexDigit c h = ground arith

all-IsHexDigit : (s : Text) → (all is_ascii_hexdigit s ≡ true) ↔ All IsHexDigit s
all-IsHexDigit [] = ground arith
all-IsHexDigit (c ∷ s) = ground (arith, is_ascii_hexdigit_iff c, all-IsHexDigit s)

-- Hex digits are one byte each.
byte_len-IsHexDigit : (s : Text) → All IsHexDigit s → byte_len s ≡ length s
unfolding byte_len
byte_len-IsHexDigit [] h = refl
byte_len-IsHexDigit (c ∷ s) h =
    omega (arith, utf8_width-IsHexDigit c h.0, byte_len-IsHexDigit s h.1)

is_hex64_iff : (s : Text) → (is_hex64 s ≡ true) ↔ IsHex64 s
unfolding is_hex64
is_hex64_iff s = ground (arith, all-IsHexDigit s, byte_len-IsHexDigit s)

-- What a well-formed record is: the current format, a named project, a commit wherever a
-- repository was present, and 64 hex digits in each place for a digest.
pub record IsWellSealed (p : Provenance) : Type 0 where
  pub format : p.format ≡ text "sorseal-provenance"
  pub version : p.version ≡ 1
  pub project : trim p.project ≢ []
  pub commit : p.git.present ≡ true → trim p.git.commit ≢ []
  pub artifacts : All HasDigests p.artifacts
  pub analysis : All (λ (a : ArtifactAnalysis). IsHex64 a.digest) p.analysis

validate_artifacts-ok :
    (l : List ArtifactProvenance) → (validate_artifacts l ≡ ok tt) ↔ All HasDigests l
unfolding validate_artifacts
validate_artifacts-ok [] = ground arith
validate_artifacts-ok (a ∷ l) =
    ground
      (arith, is_hex64_iff a.wasm_sha256, is_hex64_iff a.source_sha256, validate_artifacts-ok l)

validate_analysis-ok :
    (l : List ArtifactAnalysis)
    → (validate_analysis l ≡ ok tt) ↔ All (λ (a : ArtifactAnalysis). IsHex64 a.digest) l
unfolding validate_analysis
validate_analysis-ok [] = ground arith
validate_analysis-ok (a ∷ l) = ground (arith, is_hex64_iff a.digest, validate_analysis-ok l)

pub is_blank_iff : (s : Text) → (is_blank s ≡ true) ↔ (trim s ≡ [])
unfolding is_blank
is_blank_iff s = ==_iff (trim s) []

validate-to : (p : Provenance) → validate p ≡ ok tt → IsWellSealed p
unfolding validate format_name text
validate-to p h = record {
  format = ground (arith, ==_iff p.format format_name);
  version = ground arith;
  project = ground (arith, is_blank_iff p.project);
  commit = ground (arith, is_blank_iff p.git.commit);
  artifacts = ground (arith, validate_artifacts-ok p.artifacts);
  analysis = ground (arith, validate_artifacts-ok p.artifacts, validate_analysis-ok p.analysis);
}

validate-from : (p : Provenance) → IsWellSealed p → validate p ≡ ok tt
unfolding validate format_name text
validate-from p w = ground (
  arith,
  ==_iff p.format format_name,
  is_blank_iff p.project,
  is_blank_iff p.git.commit,
  validate_artifacts-ok p.artifacts,
  validate_analysis-ok p.analysis,
)

-- A provenance record passes `validate` exactly when it is well formed.
pub validate-IsWellSealed : (p : Provenance) → (validate p ≡ ok tt) ↔ IsWellSealed p
validate-IsWellSealed p = (validate-to p, validate-from p)
