-- ===== src/Sign/Keys.antt =====
-- The key files and `attest` of src/sign.rs.
pub mod Written
use Prim.Native.String.{String}
use sorseal.Base.{
  ℕ, true, false, not, ◌++◌, ◌&&◌, [], ◌∷◌, nat_beq, ◌==◌, text_eq, if◌then◌else◌, length, all,
  Text, Bytes, byte_len, trim, is_ascii_hexdigit, Result, ok, err, panic, ◌>>=◌, ◌>>◌, bail_if,
  ok_or, with_context, txt, List, Arg,
}
use sorseal.Base.Utf8.{as_bytes, from_utf8}
use sorseal.Base.Paths.{parent}
use sorseal.Digest.Hex.{hex, parse_pairs}
use sorseal.Interfaces.Services.{Services}
use sorseal.Interfaces.Signatures.{Ed25519}
use sorseal.Interfaces.Serde.{Serde}
use sorseal.Interfaces.Drive.{Drive}
use sorseal.Provenance.{Provenance}
use sorseal.Sign.Envelope.{sign_dsse}
use sorseal.Sign.Statement.{build_slsa_statement}

-- The rest of a function behind a call: an error or a panic ends it, and leaves the state of the call.
abbrev pub and_then_in :
    {State A B : Type 0} → Result A × State → (A → State → Result B × State) → Result B × State
and_then_in (ok a, s) next = next a s
and_then_in (err e, s) next = (err e, s)
and_then_in (panic, s) next = (panic, s)

-- `with_context` on the answer of a call.
abbrev pub context_in : {State A : Type 0} → Result A × State → String → List Arg → Result A × State
context_in (r, s) m args = (with_context r m args, s)

-- The pairs of digits that pass the test are read without an error.
unfoldable pub hex_to_bytes : Text → Result Bytes
hex_to_bytes s = do
  bail_if (not (nat_beq (byte_len (trim s)) 64 && all is_ascii_hexdigit (trim s)))
      "invalid hex string for public key" []
  ok (parse_pairs (trim s))

-- A file of 32 bytes is the key itself, any other one its hex.
unfoldable pub raw_key : Bytes → Result Bytes
raw_key bytes = if nat_beq (length bytes) 32 then ok bytes else (do
  s ← ok_or (from_utf8 bytes) "public key is neither 32 raw bytes nor 64 hex chars" []
  hex_to_bytes (trim s))

-- Whether the directory could be made is not looked at.
unfoldable pub make_parent : (D : Drive) → D.State → Text → D.State
make_parent D s path = if parent path == [] then s else (D.create_dir_all s (parent path)).1

module _ (D : Drive) (E : Ed25519) where
  -- For a key that the system's generator gave.
  unfoldable pub keygen : E.SigningKey → D.State → Text → Result Text × D.State
  keygen signing_key s key_path =
      and_then_in
        (context_in (D.write (make_parent D s key_path) key_path (E.to_seed signing_key))
          "failed to write private key to {}" (txt key_path ∷ []))
        (λ written s'. (
          ok (hex (E.key_to_bytes (E.verifying_key signing_key))),
          (D.set_permissions s' key_path 0o600).1,
        ))

  unfoldable pub load_signing_key : D.State → Text → Result E.SigningKey
  load_signing_key s path = do
    seed ← with_context (D.read s path) "failed to read private key {}" (txt path ∷ [])
    bail_if (not (nat_beq (length seed) 32)) "private key must be exactly 32 bytes: {}"
        (txt path ∷ [])
    ok (E.from_seed seed)

  unfoldable pub load_verifying_key : D.State → Text → Result E.VerifyingKey
  load_verifying_key s path = do
    bytes ← with_context (D.read s path) "failed to read public key {}" (txt path ∷ [])
    raw ← raw_key bytes
    bail_if (not (nat_beq (length raw) 32)) "public key must decode to exactly 32 bytes" []
    ok_or (E.key_from_bytes raw) "invalid Ed25519 public key: {e}" []

module _ (S : Services) (R : Serde S.json) (D : Drive) (E : Ed25519) where
  unfoldable pub attest : E.SigningKey → Provenance → D.State → Text → Result (Unit {0}) × D.State
  attest signing_key p s out_path =
      let payload = R.to_vec (build_slsa_statement S.json p) in
      let envelope = sign_dsse S.json S.base64 E signing_key payload in
      context_in (D.write s out_path (as_bytes (R.to_string_pretty envelope ++ b'\n' ∷ [])))
        "failed to write attestation to {}" (txt out_path ∷ [])
