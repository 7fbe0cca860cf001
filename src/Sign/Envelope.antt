-- ===== src/Sign/Envelope.antt =====
-- `sign_dsse`, `verify_dsse` and `dsse_pae` of src/sign.rs.
pub mod RoundTrip
pub mod Signed
use sorseal.Base.{
  ℕ, Bool, true, false, not, ◌++◌, List, [], ◌∷◌, Option, none, some, ◌==◌, text_eq, text, Text,
  Bytes, byte_len, Result, ok, ◌>>=◌, ◌>>◌, bail, bail_if, ok_or, and_then, txt, head?,
}
use sorseal.Base.Utf8.{as_bytes}
use sorseal.Clock.{digits}
use sorseal.Digest.Hex.{hex}
use sorseal.Interfaces.Json.{Json}
use sorseal.Interfaces.Encodings.{Base64}
use sorseal.Interfaces.Signatures.{Ed25519}

-- DSSE_PAYLOAD_TYPE.
unfoldable pub payload_type_name : Text
unfolding text
payload_type_name = text "application/vnd.in-toto+json"

unfoldable pub dsse_pae : Text → Text → Text
dsse_pae payload_type payload_b64 =
    text "DSSEv1 "
    ++ (digits 20 (byte_len payload_type)
        ++ (b' '
            ∷ (payload_type
                ++ (b' ' ∷ (digits 20 (byte_len payload_b64) ++ (b' ' ∷ payload_b64))))))

module _ (J : Json) (B : Base64) (E : Ed25519) where
  unfoldable pub sign_dsse : E.SigningKey → Bytes → J.Value
  sign_dsse signing_key payload =
      let payload_b64 = B.encode payload in
      let pae = dsse_pae payload_type_name payload_b64 in
      let signature = E.sign signing_key (as_bytes pae) in
      let keyid = hex (E.key_to_bytes (E.verifying_key signing_key)) in
      J.object (
        ("payload", J.string payload_b64)
        ∷ ("payloadType", J.string payload_type_name)
        ∷ (
          "signatures",
          J.array (
              J.object (
                ("keyid", J.string keyid)
                ∷ ("sig", J.string (B.encode (E.to_bytes signature)))
                ∷ [])
              ∷ []),
        )
        ∷ [])

  -- The error's text that base64, or ed25519_dalek, adds to a message is not kept.
  unfoldable pub verify_dsse : J.Value → E.VerifyingKey → Result Bytes
  verify_dsse envelope verifying_key = do
    payload_b64 ←
        ok_or (and_then (J.get envelope "payload") J.as_str) "attestation is missing 'payload'" []
    payload_type ←
        ok_or (and_then (J.get envelope "payloadType") J.as_str)
          "attestation is missing 'payloadType'" []
    bail_if (not (payload_type == payload_type_name))
        "unsupported payloadType '{}' (expected '{DSSE_PAYLOAD_TYPE}')" (txt payload_type ∷ [])
    signatures ←
        ok_or (and_then (J.get envelope "signatures") J.as_array)
          "attestation is missing 'signatures'" []
    first ← ok_or (head? signatures) "attestation has no signatures" []
    sig_b64 ← ok_or (and_then (J.get first "sig") J.as_str) "first signature is missing 'sig'" []
    sig_bytes ← ok_or (B.decode sig_b64) "invalid base64 signature: {e}" []
    signature ← ok_or (E.from_slice sig_bytes) "invalid Ed25519 signature: {e}" []
    payload ← ok_or (B.decode payload_b64) "invalid base64 payload: {e}" []
    bail_if (not (E.verify verifying_key (as_bytes (dsse_pae payload_type payload_b64)) signature))
        "attestation signature verification failed" []
    ok payload
