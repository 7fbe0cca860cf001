-- ===== src/Sign/Keys/Written.antt =====
-- What the key files of src/sign.rs hold after they are written.
use Prim.Native.String.{String}
use sorseal.Base.{
  ◌+◌, ◌≡◌, refl, ap, ◌∙◌, subst, true, ◌++◌, List, [], ◌∷◌, some, length, all, All, Text, Bytes,
  byte_len, trim, trim_start, trim_end, trim_cons, utf8_width, is_whitespace, is_ascii_hexdigit,
  Result, ok, err, panic, arith, text_eq, Arg, txt,
}
use sorseal.Base.Utf8.{as_bytes, from_utf8, from_utf8-as_bytes, IsScalar}
use sorseal.Digest.Hex.{
  hex, IsByte, hex-all_hexdigit, length-hex, byte_len-hexdigits, parse_pairs-hex,
}
use sorseal.Digest.Blank.{trim-hexdigits, trim-hexdigits_then}
use sorseal.Interfaces.Signatures.{Ed25519, Ed25519Laws}
use sorseal.Interfaces.Drive.{Drive, DriveLaws}
use sorseal.Sign.Keys.{
  and_then_in, hex_to_bytes, context_in, make_parent, keygen, load_signing_key, raw_key,
  load_verifying_key,
}

-- What a chain that ends well says of its first part.
pub and_then_in-eq-ok :
    {State A B : Type 0} (r : Result A × State) (next : A → State → Result B × State) {b : B}
    {t : State}
    → and_then_in r next ≡ (ok b, t)
    → (a : A) × (s : State) × (r ≡ (ok a, s)) × (next a s ≡ (ok b, t))
and_then_in-eq-ok (ok a, s) next h = (a, s, refl, h)
and_then_in-eq-ok (err e, s) next h = cc
and_then_in-eq-ok (panic, s) next h = cc

pub length-as_bytes : (s : Text) → length (as_bytes s) ≡ byte_len s
unfolding as_bytes byte_len utf8_width
length-as_bytes [] = refl
length-as_bytes (c ∷ s) = ground (arith, length-as_bytes s)

byte_len-append : (s t : Text) → byte_len (s ++ t) ≡ byte_len s + byte_len t
unfolding byte_len
byte_len-append [] t = omega arith
byte_len-append (c ∷ s) t = omega (arith, byte_len-append s t)

-- The line of hex digits that `keygen` is printed to is read as the key's bytes.
line_width : (s : Text) → byte_len s ≡ 64 → byte_len (s ++ b'\n' ∷ []) ≡ 65
unfolding byte_len utf8_width
line_width s h = byte_len-append s (b'\n' ∷ []) ∙ ap (λ n. n + 1) h

line-IsScalar : (s : Text) → all is_ascii_hexdigit s ≡ true → All IsScalar (s ++ b'\n' ∷ [])
unfolding is_ascii_hexdigit
line-IsScalar [] h = (refl, tt)
line-IsScalar (c ∷ s) h = (ground arith, line-IsScalar s (ground arith))

trim-line : (s : Text) → all is_ascii_hexdigit s ≡ true → trim (s ++ b'\n' ∷ []) ≡ s
unfolding trim trim_start trim_end trim_cons is_whitespace
trim-line s h = trim-hexdigits_then s (b'\n' ∷ []) refl refl h

raw_key-hex :
    (bs : Bytes)
    → length bs ≡ 32
    → All IsByte bs
    → raw_key (as_bytes (hex bs ++ b'\n' ∷ [])) ≡ ok bs
unfolding raw_key hex_to_bytes
raw_key-hex bs n h =
    let line = hex bs ++ b'\n' ∷ [] in
    let digits : all is_ascii_hexdigit (hex bs) ≡ true = hex-all_hexdigit bs h in
    let width : byte_len (hex bs) ≡ 64 =
      byte_len-hexdigits (hex bs) digits ∙ omega (arith, length-hex bs) in
    let longer : length (as_bytes line) ≡ 65 = length-as_bytes line ∙ line_width (hex bs) width in
    let read : from_utf8 (as_bytes line) ≡ some line =
      from_utf8-as_bytes line (line-IsScalar (hex bs) digits) in
    rw longer (
      rw read (
        rw (trim-line (hex bs) digits) (
          rw (trim-hexdigits (hex bs) digits)
            (rw width (rw digits (ap ok (parse_pairs-hex bs h)))))))

pub context_in-eq-ok :
    {State A : Type 0} (r : Result A × State) (m : String) (args : List Arg) {a : A} {t : State}
    → context_in r m args ≡ (ok a, t)
    → r ≡ (ok a, t)
context_in-eq-ok (ok x, s) m args h = h
context_in-eq-ok (err e, s) m args h = cc
context_in-eq-ok (panic, s) m args h = cc

module _ (D : Drive) (drive : DriveLaws D) (E : Ed25519) (keys : Ed25519Laws E) where
  -- A key pair that was written: what is returned, and the private key's file.
  pub keygen-eq-ok :
      (k : E.SigningKey) (s t : D.State) (path : Text) {pub_hex : Text}
      → keygen D E k s path ≡ (ok pub_hex, t)
      → (pub_hex ≡ hex (E.key_to_bytes (E.verifying_key k))) × (D.read t path ≡ ok (E.to_seed k))
  unfolding keygen
  keygen-eq-ok k s t path {pub_hex} h =
      let (done, s', wrote, rest) =
        and_then_in-eq-ok
          (context_in (D.write (make_parent D s path) path (E.to_seed k))
            "failed to write private key to {}" (txt path ∷ []))
          _ h in
      let held : D.read s' path ≡ ok (E.to_seed k) =
        drive.read-write _ s' path _ (context_in-eq-ok _ _ _ wrote) in
      (
        ground (arith, rest),
        subst (λ x. D.read x path ≡ ok (E.to_seed k)) (ap (λ r. r.1) rest)
            (drive.read-set_permissions s' path path held),
      )

  pub load_signing_key-written :
      (k : E.SigningKey) (s : D.State) (path : Text)
      → D.read s path ≡ ok (E.to_seed k)
      → load_signing_key D E s path ≡ ok k
  unfolding load_signing_key
  load_signing_key-written k s path h =
      rw h (rw (keys.length-to_seed k) (ap ok (keys.from_seed-to_seed k)))

  pub load_verifying_key-written :
      (k : E.SigningKey) (s : D.State) (path : Text)
      → D.read s path ≡ ok (as_bytes (hex (E.key_to_bytes (E.verifying_key k)) ++ b'\n' ∷ []))
      → load_verifying_key D E s path ≡ ok (E.verifying_key k)
  unfolding load_verifying_key
  load_verifying_key-written k s path h =
      let v = E.verifying_key k in
      rw h (
        rw
          (raw_key-hex (E.key_to_bytes v) (keys.length-key_to_bytes v) (keys.key_to_bytes-IsByte v))
          (rw (keys.length-key_to_bytes v) (rw (keys.key_from_bytes-key_to_bytes k) refl)))
