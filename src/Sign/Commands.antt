-- ===== src/Sign/Commands.antt =====
-- The commands `keygen`, `sign` and `verify-attestation` of src/main.rs, without what they print. Paths are relative
-- to the working directory.
pub mod Verified
pub mod RoundTrip
pub mod Accepted
use sorseal.Base.{
  ℕ, Bool, true, false, ◌++◌, [], ◌∷◌, Option, none, some, if◌then◌else◌, text, Text, Result, ok,
  err, panic, ◌>>=◌, ok_or, unwrap_or,
}
use sorseal.Base.Utf8.{as_bytes}
use sorseal.Base.Paths.{set_extension}
use sorseal.Interfaces.Services.{Services, Value}
use sorseal.Interfaces.Signatures.{Ed25519}
use sorseal.Interfaces.Serde.{Serde}
use sorseal.Interfaces.Drive.{Drive, read_to_string}
use sorseal.Provenance.{Provenance}
use sorseal.Provenance.File.{load}
use sorseal.Sign.Envelope.{verify_dsse}
use sorseal.Sign.Statement.{subjects_match}
use sorseal.Sign.Keys.{and_then_in, keygen, load_signing_key, load_verifying_key, attest}

unfoldable pub public_path : Text → Option Text → Text
public_path key public_key = unwrap_or public_key (set_extension key (text "pub"))

unfoldable pub keygen_command :
    (D : Drive) (E : Ed25519) → E.SigningKey → Text → Option Text → D.State → Result ℕ × D.State
keygen_command D E signing_key key public_key s =
    and_then_in (keygen D E signing_key s key) (λ pub_hex s'.
      and_then_in (D.write s' (public_path key public_key) (as_bytes (pub_hex ++ b'\n' ∷ [])))
        (λ done s''. (ok 0, s'')))

module _ (S : Services) (R : Serde S.json) (D : Drive) (E : Ed25519)
    (from_str : Text → Option Provenance) where
  -- With a key that is loaded.
  unfoldable pub sign_with : E.SigningKey → Text → Text → D.State → Result ℕ × D.State
  sign_with signing_key provenance output s =
      and_then_in (load D from_str s provenance, s)
        (λ p s'. and_then_in (attest S R D E signing_key p s' output) (λ done end. (ok 0, end)))

  unfoldable pub sign_command : Text → Text → Text → D.State → Result ℕ × D.State
  sign_command key provenance output s =
      and_then_in (load_signing_key D E s key, s)
        (λ signing_key s'. sign_with signing_key provenance output s')

  -- The exit code from the subjects, where there is a provenance file.
  unfoldable pub subject_code : Value S → Text → Bool → D.State → Result ℕ
  subject_code statement provenance false s = ok 0
  subject_code statement provenance true s = do
    p ← load D from_str s provenance
    matches ← subjects_match S.json statement p
    ok (if matches then 0 else 1)

  unfoldable pub verify_attestation_command : Text → Text → Text → D.State → Result ℕ
  verify_attestation_command public_key attestation provenance s = do
    verifying_key ← load_verifying_key D E s public_key
    raw ← read_to_string D s attestation
    envelope ← ok_or (R.from_str raw) "invalid attestation JSON: {e}" []
    payload ← verify_dsse S.json S.base64 E envelope verifying_key
    statement ← ok_or (R.from_slice payload) "attestation payload is not valid JSON: {e}" []
    subject_code statement provenance (D.exists s provenance) s
