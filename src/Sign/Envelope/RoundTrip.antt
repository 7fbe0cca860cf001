-- ===== src/Sign/Envelope/RoundTrip.antt =====
-- An envelope of src/sign.rs that is verified by the key that signed it.
use Prim.Native.String.{String}
use sorseal.Base.{◌≡◌, refl, List, some, ==_refl, text_eq, Text, Bytes, ok, and_then}
use sorseal.Base.Utf8.{as_bytes}
use sorseal.Interfaces.Json.{Json, JsonLaws, lookup}
use sorseal.Interfaces.Encodings.{Base64, Base64Laws}
use sorseal.Interfaces.Signatures.{Ed25519, Ed25519Laws}
use sorseal.Sign.Envelope.{payload_type_name, dsse_pae, sign_dsse, verify_dsse}

module _ {J : Json} (laws : JsonLaws J) where
  -- A field of an object that holds a string, or an array.
  pub field_str :
      (fields : List (String × J.Value)) (k : String) (s : Text)
      → lookup k fields ≡ some (J.string s)
      → and_then (J.get (J.object fields) k) J.as_str ≡ some s
  field_str fields k s h = rw (laws.get-object fields k) (rw h (laws.as_str-string s))

  pub field_array :
      (fields : List (String × J.Value)) (k : String) (vs : List J.Value)
      → lookup k fields ≡ some (J.array vs)
      → and_then (J.get (J.object fields) k) J.as_array ≡ some vs
  field_array fields k vs h = rw (laws.get-object fields k) (rw h (laws.as_array-array vs))

pub verify_dsse-sign_dsse :
    (J : Json) (B : Base64) (E : Ed25519) (json_laws : JsonLaws J) (base64_laws : Base64Laws B)
    (key_laws : Ed25519Laws E) (k : E.SigningKey) (payload : Bytes)
    → verify_dsse J B E (sign_dsse J B E k payload) (E.verifying_key k) ≡ ok payload
unfolding sign_dsse verify_dsse
verify_dsse-sign_dsse J B E json_laws base64_laws key_laws k payload =
    let pae = as_bytes (dsse_pae payload_type_name (B.encode payload)) in
    let sig = E.sign k pae in
    rw (field_str json_laws _ "payload" (B.encode payload) refl) (
      rw (field_str json_laws _ "payloadType" payload_type_name refl) (
        rw (==_refl payload_type_name) (
          rw (field_array json_laws _ "signatures" _ refl) (
            rw (field_str json_laws _ "sig" (B.encode (E.to_bytes sig)) refl) (
              rw (base64_laws.decode-encode (E.to_bytes sig)) (
                rw (key_laws.from_slice-to_bytes sig) (
                  rw (base64_laws.decode-encode payload)
                    (rw (key_laws.verify-sign k pae) refl))))))))
