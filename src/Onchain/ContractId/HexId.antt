-- ===== src/Onchain/ContractId/HexId.antt =====
-- What `hex_to_bytes` accepts, and that it undoes `digest::hex`.
use sorseal.Base.{
  ℕ, ◌≡◌, refl, true, arith, length, all, All, Text, Bytes, is_ascii_hexdigit, ascii_lower,
  to_ascii_lowercase, ok, [], ◌∷◌, inl, inr, Bool-cases,
}
use sorseal.Digest.Hex.{
  hex, parse_pairs, IsByte, length-hex, hex-all_hexdigit, parse_pairs-hex, byte_len-hexdigits,
  hex-parse_pairs, length-parse_pairs, parse_pairs-IsByte,
}
use sorseal.Onchain.ContractId.{is_hex_id, hex_to_bytes}

-- 64 hex digits, of either case.
pub record IsHexId (s : Text) : Type 0 where
  pub digits : all is_ascii_hexdigit s ≡ true
  pub len : length s ≡ 64

pub is_hex_id-IsHexId : (s : Text) → is_hex_id s ≡ true → IsHexId s
unfolding is_hex_id
is_hex_id-IsHexId s h = record { digits = ground arith; len = ground (arith, byte_len-hexdigits s) }

pub IsHexId-is_hex_id : (s : Text) → IsHexId s → is_hex_id s ≡ true
unfolding is_hex_id
IsHexId-is_hex_id s h = ground (arith, byte_len-hexdigits s h.digits)

pub hex-IsHexId : (bs : Bytes) → length bs ≡ 32 → All IsByte bs → IsHexId (hex bs)
hex-IsHexId bs e h = record { digits = hex-all_hexdigit bs h; len = omega (arith, length-hex bs) }

-- For every 32 bytes: printed as hex and read back by `hex_to_bytes`, they are the same bytes.
pub hex_to_bytes-hex : (bs : Bytes) → length bs ≡ 32 → All IsByte bs → hex_to_bytes (hex bs) ≡ ok bs
unfolding hex_to_bytes
hex_to_bytes-hex bs e h =
    ground (arith, IsHexId-is_hex_id (hex bs) (hex-IsHexId bs e h), parse_pairs-hex bs h)

-- Whatever `hex_to_bytes` accepts is 32 bytes, and they print as the lower case of the text read.
pub hex-hex_to_bytes :
    (s : Text) {bs : Bytes}
    → hex_to_bytes s ≡ ok bs
    → (length bs ≡ 32) × All IsByte bs × (hex bs ≡ to_ascii_lowercase s)
unfolding hex_to_bytes
hex-hex_to_bytes s {bs} h = elim (Bool-cases (is_hex_id s)) [
  | inl good ↦
      let p : IsHexId s = is_hex_id-IsHexId s good in
      let e : parse_pairs s ≡ bs = ground arith in
      rw (← e) (
        length-parse_pairs 32 s p.len,
        parse_pairs-IsByte s p.digits,
        hex-parse_pairs 32 s p.digits p.len,
      )
  | inr bad ↦ absurd (ground arith)
]

hexdigit-ascii_lower :
    (c : ℕ) → is_ascii_hexdigit c ≡ true → is_ascii_hexdigit (ascii_lower c) ≡ true
unfolding is_ascii_hexdigit ascii_lower
hexdigit-ascii_lower c h = ground arith

pub ascii_lower_idem : (c : ℕ) → ascii_lower (ascii_lower c) ≡ ascii_lower c
unfolding ascii_lower
ascii_lower_idem c = ground arith

pub to_ascii_lowercase_idem :
    (s : Text) → to_ascii_lowercase (to_ascii_lowercase s) ≡ to_ascii_lowercase s
unfolding to_ascii_lowercase
to_ascii_lowercase_idem [] = refl
to_ascii_lowercase_idem (c ∷ s) = ground (arith, ascii_lower_idem c, to_ascii_lowercase_idem s)

digits-to_ascii_lowercase :
    (s : Text)
    → all is_ascii_hexdigit s ≡ true
    → all is_ascii_hexdigit (to_ascii_lowercase s) ≡ true
unfolding to_ascii_lowercase
digits-to_ascii_lowercase [] h = refl
digits-to_ascii_lowercase (c ∷ s) h =
    ground (arith, hexdigit-ascii_lower c, digits-to_ascii_lowercase s)

length-to_ascii_lowercase : (s : Text) → length (to_ascii_lowercase s) ≡ length s
unfolding to_ascii_lowercase
length-to_ascii_lowercase [] = refl
length-to_ascii_lowercase (c ∷ s) = omega (arith, length-to_ascii_lowercase s)

pub to_ascii_lowercase-IsHexId : (s : Text) → IsHexId s → IsHexId (to_ascii_lowercase s)
to_ascii_lowercase-IsHexId s h = record {
  digits = digits-to_ascii_lowercase s h.digits;
  len = omega (arith, length-to_ascii_lowercase s, h.len);
}
