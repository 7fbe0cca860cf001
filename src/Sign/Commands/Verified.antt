-- ===== src/Sign/Commands/Verified.antt =====
-- What the commands of src/main.rs on keys and attestations leave for each other.
use sorseal.Base.{ℕ, ◌≡◌, refl, ap, ◌∙◌, subst, ◌++◌, [], ◌∷◌, Option, Text, Bytes, ok, All, txt}
use sorseal.Base.Utf8.{as_bytes, from_utf8-as_bytes, IsScalar}
use sorseal.Digest.Hex.{hex}
use sorseal.Interfaces.Services.{Services, ServicesLaws, Value}
use sorseal.Interfaces.Signatures.{Ed25519, Ed25519Laws}
use sorseal.Interfaces.Serde.{Serde, ReadsBack, PrintsBack}
use sorseal.Interfaces.Drive.{Drive, DriveLaws, Apart, read_to_string}
use sorseal.Provenance.{Provenance}
use sorseal.Provenance.File.{load}
use sorseal.Provenance.Loaded.{load-eq-ok}
use sorseal.Sign.Envelope.{sign_dsse}
use sorseal.Sign.Envelope.RoundTrip.{verify_dsse-sign_dsse}
use sorseal.Sign.Statement.{build_slsa_statement}
use sorseal.Sign.Statement.Attested.{subjects_match_self}
use sorseal.Sign.Keys.{keygen, attest, and_then_in}
use sorseal.Sign.Keys.Written.{
  and_then_in-eq-ok, context_in-eq-ok, keygen-eq-ok, load_signing_key-written,
  load_verifying_key-written,
}
use sorseal.Sign.Commands.{
  public_path, keygen_command, sign_with, sign_command, subject_code, verify_attestation_command,
}

line-IsScalar : (s : Text) → All IsScalar s → All IsScalar (s ++ b'\n' ∷ [])
line-IsScalar [] h = (refl, tt)
line-IsScalar (c ∷ s) (scalar, h) = (scalar, line-IsScalar s h)

-- The line that the public key's file holds.
abbrev pub public_line : (E : Ed25519) → E.SigningKey → Bytes
public_line E k = as_bytes (hex (E.key_to_bytes (E.verifying_key k)) ++ b'\n' ∷ [])

-- The attestation of a record, and its text.
abbrev pub envelope :
    (S : Services) → Serde S.json → (E : Ed25519) → E.SigningKey → Provenance → Value S
envelope S R E k p = sign_dsse S.json S.base64 E k (R.to_vec (build_slsa_statement S.json p))

abbrev pub attestation :
    (S : Services) → Serde S.json → (E : Ed25519) → E.SigningKey → Provenance → Text
attestation S R E k p = R.to_string_pretty (envelope S R E k p) ++ b'\n' ∷ []

module _ (D : Drive) (drive : DriveLaws D) (E : Ed25519) (keys : Ed25519Laws E) where
  pub keygen_command-eq-ok :
      (k : E.SigningKey) (key : Text) (public_key : Option Text) (s t : D.State) {code : ℕ}
      → Apart D (public_path key public_key) key
      → keygen_command D E k key public_key s ≡ (ok code, t)
      → (D.read t key ≡ ok (E.to_seed k))
        × (D.read t (public_path key public_key) ≡ ok (public_line E k))
  unfolding keygen_command
  keygen_command-eq-ok k key public_key s t apart h =
      let (pub_hex, s', made, rest) = and_then_in-eq-ok (keygen D E k s key) _ h in
      let (hex_is, seed) = keygen-eq-ok D drive E keys k s s' key made in
      let (written, s'', wrote, end) =
        and_then_in-eq-ok
          (D.write s' (public_path key public_key) (as_bytes (pub_hex ++ b'\n' ∷ []))) _ rest in
      let last : s'' ≡ t = ap (λ r. r.1) end in
      subst
        (λ x.
          (D.read x key ≡ ok (E.to_seed k))
          × (D.read x (public_path key public_key) ≡ ok (public_line E k)))
        last
        (
          apart s' s'' _ wrote ∙ seed,
          drive.read-write s' s'' _ _ wrote ∙ ap (λ h. ok (as_bytes (h ++ b'\n' ∷ []))) hex_is,
        )

module _ (S : Services) (laws : ServicesLaws S) (R : Serde S.json) (D : Drive) (drive : DriveLaws D)
    (E : Ed25519) (keys : Ed25519Laws E) (from_str : Text → Option Provenance) where
  sign_with-eq-ok :
      (k : E.SigningKey) (p : Provenance) (provenance output : Text) (s t : D.State) {code : ℕ}
      → load D from_str s provenance ≡ ok p
      → sign_with S R D E from_str k provenance output s ≡ (ok code, t)
      → D.write s output (as_bytes (attestation S R E k p)) ≡ (ok tt, t)
  unfolding sign_with attest
  sign_with-eq-ok k p provenance output s t {code} loaded h =
      let attested =
        subst
          (λ r.
            and_then_in r
              (λ p s'. and_then_in (attest S R D E k p s' output) (λ done end. (ok 0, end)))
            ≡ (ok code, t))
          (ap (λ r. (r, s)) loaded) h in
      let (done, t', wrote, end) = and_then_in-eq-ok (attest S R D E k p s output) _ attested in
      let call : D.write s output (as_bytes (attestation S R E k p)) ≡ (ok tt, t') =
        context_in-eq-ok _ "failed to write attestation to {}" (txt output ∷ []) wrote in
      call ∙ ap (λ r. (ok tt, r.1)) end

  pub sign_command-eq-ok :
      (k : E.SigningKey) (p : Provenance) (key provenance output : Text) (s t : D.State) {code : ℕ}
      → D.read s key ≡ ok (E.to_seed k)
      → load D from_str s provenance ≡ ok p
      → sign_command S R D E from_str key provenance output s ≡ (ok code, t)
      → D.write s output (as_bytes (attestation S R E k p)) ≡ (ok tt, t)
  unfolding sign_command
  sign_command-eq-ok k p key provenance output s t {code} seed loaded h =
      sign_with-eq-ok k p provenance output s t loaded (
        subst
          (λ r.
            and_then_in r (λ k' s'. sign_with S R D E from_str k' provenance output s')
            ≡ (ok code, t))
          (ap (λ r. (r, s)) (load_signing_key-written D drive E keys k s key seed)) h)

  pub attestation-read :
      (k : E.SigningKey) (p : Provenance) (s t : D.State) (output : Text)
      → PrintsBack R (envelope S R E k p)
      → D.write s output (as_bytes (attestation S R E k p)) ≡ (ok tt, t)
      → read_to_string D t output ≡ ok (attestation S R E k p)
  unfolding read_to_string
  attestation-read k p s t output (back, scalars) h =
      rw (drive.read-write s t output _ h)
        (rw (from_utf8-as_bytes (attestation S R E k p) (line-IsScalar _ scalars)) refl)

  -- In a state where the public key, the attestation and the record can be read.
  pub verify_attestation_command-reads :
      (k : E.SigningKey) (p : Provenance) (public_key output provenance : Text) (s : D.State)
      → ReadsBack R (build_slsa_statement S.json p)
      → PrintsBack R (envelope S R E k p)
      → D.read s public_key ≡ ok (public_line E k)
      → read_to_string D s output ≡ ok (attestation S R E k p)
      → load D from_str s provenance ≡ ok p
      → verify_attestation_command S R D E from_str public_key output provenance s ≡ ok 0
  unfolding verify_attestation_command subject_code
  verify_attestation_command-reads k p public_key output provenance s back prints line text loaded =
      let statement = build_slsa_statement S.json p in
      let payload = R.to_vec statement in
      let verified =
        verify_dsse-sign_dsse S.json S.base64 E laws.json_laws laws.base64_laws keys k payload in
      let (bytes, there) = load-eq-ok D from_str s provenance loaded in
      rw (load_verifying_key-written D drive E keys k s public_key line) (
        rw text (
          rw (prints.0) (
            rw verified (
              rw back (
                rw (drive.exists-read s provenance there)
                  (rw loaded (rw (subjects_match_self S.json laws.json_laws p) refl)))))))
