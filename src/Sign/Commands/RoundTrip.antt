-- ===== src/Sign/Commands/RoundTrip.antt =====
-- The commands `keygen`, `sign` and `verify-attestation` of src/main.rs, one after another.
use sorseal.Base.{◌≡◌, ◌∙◌, Option, Text, ok}
use sorseal.Interfaces.Services.{Services, ServicesLaws}
use sorseal.Interfaces.Signatures.{Ed25519, Ed25519Laws}
use sorseal.Interfaces.Serde.{Serde, ReadsBack, PrintsBack}
use sorseal.Interfaces.Drive.{Drive, DriveLaws, Apart}
use sorseal.Provenance.{Provenance}
use sorseal.Provenance.File.{load}
use sorseal.Provenance.Loaded.{load-again}
use sorseal.Sign.Statement.{build_slsa_statement}
use sorseal.Sign.Commands.{public_path, keygen_command, sign_command, verify_attestation_command}
use sorseal.Sign.Commands.Verified.{
  envelope, keygen_command-eq-ok, sign_command-eq-ok, attestation-read,
  verify_attestation_command-reads,
}

-- Under the laws of the libraries and of the drive, and where serde_json reads back the statement and the
-- envelope that it has written: after `keygen` and then `sign` of a record have ended well, on paths of which
-- none but the named ones are written to, `verify-attestation` of the new attestation with the public key and
-- the same record answers 0.
pub verify_attestation_command-sign_command :
    (S : Services) (laws : ServicesLaws S) (R : Serde S.json) (D : Drive) (drive : DriveLaws D)
    (E : Ed25519) (keys : Ed25519Laws E) (from_str : Text → Option Provenance) (k : E.SigningKey)
    (p : Provenance) (key output provenance : Text) (public_key : Option Text) (s₀ s₁ s₂ : D.State)
    → keygen_command D E k key public_key s₀ ≡ (ok 0, s₁)
    → load D from_str s₁ provenance ≡ ok p
    → sign_command S R D E from_str key provenance output s₁ ≡ (ok 0, s₂)
    → Apart D (public_path key public_key) key
    → Apart D output (public_path key public_key)
    → Apart D output provenance
    → ReadsBack R (build_slsa_statement S.json p)
    → PrintsBack R (envelope S R E k p)
    → verify_attestation_command S R D E from_str (public_path key public_key) output provenance s₂
      ≡ ok 0
verify_attestation_command-sign_command S laws R D drive E keys from_str k p key output provenance
      public_key s₀ s₁ s₂ made loaded signed apart_key apart_public apart_record back prints =
    let (seed, line) = keygen_command-eq-ok D drive E keys k key public_key s₀ s₁ apart_key made in
    let wrote =
      sign_command-eq-ok S laws R D drive E keys from_str k p key provenance output s₁ s₂ seed
        loaded signed in
    verify_attestation_command-reads S laws R D drive E keys from_str k p
      (public_path key public_key) output provenance s₂ back prints
      (apart_public s₁ s₂ _ wrote ∙ line)
      (attestation-read S laws R D drive E keys from_str k p s₁ s₂ output prints wrote)
      (load-again D from_str s₁ s₂ provenance (apart_record s₁ s₂ _ wrote) ∙ loaded)
