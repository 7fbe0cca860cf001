-- ===== src/Sign/Commands/Accepted.antt =====
-- What `verify-attestation` of src/main.rs accepts.
use sorseal.Base.{ℕ, List, ◌≡◌, Bool, true, Option, some, Text, ok}
use sorseal.Interfaces.Services.{Services, Value}
use sorseal.Interfaces.Signatures.{Ed25519}
use sorseal.Interfaces.Serde.{Serde}
use sorseal.Interfaces.Drive.{Drive, read_to_string}
use sorseal.Provenance.{Provenance}
use sorseal.Provenance.File.{load}
use sorseal.Sign.Envelope.Signed.{Signed}
use sorseal.Sign.Statement.Subjects.{NamesAll}
use sorseal.Sign.Keys.{load_verifying_key}

module _ (S : Services) (R : Serde S.json) (D : Drive) (E : Ed25519)
    (from_str : Text → Option Provenance) (public_key attestation provenance : Text)
    (s : D.State) where
  -- A readable attestation, signed with the key, over a statement that names every artifact of the provenance
  -- file where there is one.
  pub record Accepted : Type 0 where
    pub verifying_key : E.VerifyingKey
    pub key : load_verifying_key D E s public_key ≡ ok verifying_key
    pub raw : Text
    pub is_raw : read_to_string D s attestation ≡ ok raw
    pub envelope : Value S
    pub parses : R.from_str raw ≡ some envelope
    pub payload : List ℕ
    pub signed : Signed S.json S.base64 E envelope verifying_key payload
    pub statement : Value S
    pub states : R.from_slice payload ≡ some statement
    pub names :
        D.exists s provenance ≡ true
        → (p : Provenance) × (load D from_str s provenance ≡ ok p) × NamesAll S.json statement p

  -- Where the file is there and where it is not.
  abbrev Named : Value S → Bool → Type 0
  Named statement there =
      there ≡ true
      → (p : Provenance) × (load D from_str s provenance ≡ ok p) × NamesAll S.json statement p
