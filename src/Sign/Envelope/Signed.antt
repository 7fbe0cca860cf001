-- ===== src/Sign/Envelope/Signed.antt =====
-- What `verify_dsse` of src/sign.rs accepts.
use sorseal.Base.{
  ◌≡◌, refl, ap, ◌∙◌, ◌↔◌, true, not, List, some, ◌==◌, ==_iff, ==_refl, text_eq, Text, Bytes, ok,
  ok_or_then-eq-ok, bail_if_then-eq-ok, subst, and_then, head?, arith,
}
use sorseal.Base.Utf8.{as_bytes}
use sorseal.Interfaces.Json.{Json}
use sorseal.Interfaces.Encodings.{Base64}
use sorseal.Interfaces.Signatures.{Ed25519}
use sorseal.Sign.Envelope.{payload_type_name, dsse_pae, verify_dsse}

-- An envelope of the in-toto type, whose payload decodes to the bytes and whose first signature is one of the
-- key's over the payload as it stands.
pub record Signed (J : Json) (B : Base64) (E : Ed25519) (envelope : J.Value) (v : E.VerifyingKey)
    (payload : Bytes) : Type 0 where
  pub payload_b64 : Text
  pub has_payload : and_then (J.get envelope "payload") J.as_str ≡ some payload_b64
  pub decodes : B.decode payload_b64 ≡ some payload
  pub has_type : and_then (J.get envelope "payloadType") J.as_str ≡ some payload_type_name
  pub signatures : List J.Value
  pub has_signatures : and_then (J.get envelope "signatures") J.as_array ≡ some signatures
  pub first : J.Value
  pub is_first : head? signatures ≡ some first
  pub sig_b64 : Text
  pub has_sig : and_then (J.get first "sig") J.as_str ≡ some sig_b64
  pub sig_bytes : Bytes
  pub sig_decodes : B.decode sig_b64 ≡ some sig_bytes
  pub signature : E.Signature
  pub is_signature : E.from_slice sig_bytes ≡ some signature
  pub verified : E.verify v (as_bytes (dsse_pae payload_type_name payload_b64)) signature ≡ true

module _ (J : Json) (B : Base64) (E : Ed25519) (envelope : J.Value) (v : E.VerifyingKey)
    (payload : Bytes) where
  Signed-verify_dsse : Signed J B E envelope v payload → verify_dsse J B E envelope v ≡ ok payload
  unfolding verify_dsse
  Signed-verify_dsse s = rw (s.has_payload) (
      rw (s.has_type) (
        rw (==_refl payload_type_name) (
          rw (s.has_signatures) (
            rw (s.is_first) (
              rw (s.has_sig) (
                rw (s.sig_decodes)
                  (rw (s.is_signature) (rw (s.decodes) (rw (s.verified) refl)))))))))

  verify_dsse-Signed : verify_dsse J B E envelope v ≡ ok payload → Signed J B E envelope v payload
  unfolding verify_dsse
  verify_dsse-Signed h =
      let (payload_b64, a, h) =
        ok_or_then-eq-ok (and_then (J.get envelope "payload") J.as_str) _ _ _ h in
      let (payload_type, b, h) =
        ok_or_then-eq-ok (and_then (J.get envelope "payloadType") J.as_str) _ _ _ h in
      let (right, h) = bail_if_then-eq-ok (not (payload_type == payload_type_name)) _ _ _ h in
      let (signatures, d, h) =
        ok_or_then-eq-ok (and_then (J.get envelope "signatures") J.as_array) _ _ _ h in
      let (first, e, h) = ok_or_then-eq-ok (head? signatures) _ _ _ h in
      let (sig_b64, f, h) = ok_or_then-eq-ok (and_then (J.get first "sig") J.as_str) _ _ _ h in
      let (sig_bytes, g, h) = ok_or_then-eq-ok (B.decode sig_b64) _ _ _ h in
      let (signature, i, h) = ok_or_then-eq-ok (E.from_slice sig_bytes) _ _ _ h in
      let (bytes, j, h) = ok_or_then-eq-ok (B.decode payload_b64) _ _ _ h in
      let (passed, h) =
        bail_if_then-eq-ok
          (not (E.verify v (as_bytes (dsse_pae payload_type payload_b64)) signature)) _ _ _ h in
      let same : payload_type ≡ payload_type_name =
        ground (arith, ==_iff payload_type payload_type_name) in
      record {
        payload_b64 = payload_b64;
        has_payload = a;
        decodes = j ∙ ground (arith, h);
        has_type = b ∙ ap some same;
        signatures = signatures;
        has_signatures = d;
        first = first;
        is_first = e;
        sig_b64 = sig_b64;
        has_sig = f;
        sig_bytes = sig_bytes;
        sig_decodes = g;
        signature = signature;
        is_signature = i;
        verified =
            subst (λ t. E.verify v (as_bytes (dsse_pae t payload_b64)) signature ≡ true) same
              (ground arith);
      }

  pub verify_dsse_iff :
      (verify_dsse J B E envelope v ≡ ok payload) ↔ Signed J B E envelope v payload
  verify_dsse_iff = (verify_dsse-Signed, Signed-verify_dsse)
