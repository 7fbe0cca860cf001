-- ===== src/Digest/Hex.antt =====
-- `digest::hex`, and the loop with which `onchain::hex_to_bytes` and `sim::hex_bytes` read hex.
use sorseal.Base.{ℕ, zero, suc, ◌+◌, ◌-◌, ◌*◌, ◌/◌, ◌%◌, ◌<◌, ◌≡◌, refl, ap, true, [], ◌∷◌, arith}
use sorseal.Base.{
  ltb, leb, if◌then◌else◌, length, all, All, Text, Bytes, utf8_width, byte_len, is_ascii_hexdigit,
  ascii_lower, to_ascii_lowercase,
}

-- One digit of `{b:02x}`.
unfoldable pub hex_digit : ℕ → ℕ
hex_digit d = if ltb d 10 then d + 48 else d + 87

unfoldable pub hex : Bytes → Text
unfolding hex_digit
hex [] = []
hex (b ∷ bs) = hex_digit (b / 16) ∷ hex_digit (b % 16) ∷ hex bs

-- The value of a character that `is_ascii_hexdigit` accepts.
unfoldable pub hex_value : ℕ → ℕ
hex_value c = if leb c b'9' then c - 48 else if leb c b'F' then c - 55 else c - 87

-- `u8::from_str_radix` on each pair of digits.
unfoldable pub parse_pairs : Text → Bytes
unfolding hex_value
parse_pairs (a ∷ b ∷ s) = (hex_value a * 16 + hex_value b) ∷ parse_pairs s
parse_pairs _ = []

abbrev pub IsByte : ℕ → Type 0
IsByte b = b < 256

pub length-hex : (bs : Bytes) → length (hex bs) ≡ 2 * length bs
unfolding hex
length-hex [] = omega arith
length-hex (b ∷ bs) = omega (arith, length-hex bs)

pub hex_digit-is_ascii_hexdigit : (d : ℕ) → d < 16 → is_ascii_hexdigit (hex_digit d) ≡ true
unfolding hex_digit is_ascii_hexdigit
hex_digit-is_ascii_hexdigit d h = ground arith

hex_value-hex_digit : (d : ℕ) → d < 16 → hex_value (hex_digit d) ≡ d
unfolding hex_digit hex_value
hex_value-hex_digit d h = ground arith

ascii_lower-hex_digit : (d : ℕ) → d < 16 → ascii_lower (hex_digit d) ≡ hex_digit d
unfolding hex_digit ascii_lower
ascii_lower-hex_digit d h = ground arith

pub hex-all_hexdigit : (bs : Bytes) → All IsByte bs → all is_ascii_hexdigit (hex bs) ≡ true
unfolding hex
hex-all_hexdigit [] h = refl
hex-all_hexdigit (b ∷ bs) h = ground (
  arith,
  hex_digit-is_ascii_hexdigit (b / 16),
  hex_digit-is_ascii_hexdigit (b % 16),
  hex-all_hexdigit bs,
)

pub to_ascii_lowercase-hex : (bs : Bytes) → All IsByte bs → to_ascii_lowercase (hex bs) ≡ hex bs
unfolding to_ascii_lowercase hex
to_ascii_lowercase-hex [] h = refl
to_ascii_lowercase-hex (b ∷ bs) h = ground (
  arith,
  ascii_lower-hex_digit (b / 16),
  ascii_lower-hex_digit (b % 16),
  to_ascii_lowercase-hex bs,
)

pub parse_pairs-hex : (bs : Bytes) → All IsByte bs → parse_pairs (hex bs) ≡ bs
unfolding hex parse_pairs
parse_pairs-hex [] h = refl
parse_pairs-hex (b ∷ bs) h =
    ground (arith, hex_value-hex_digit (b / 16), hex_value-hex_digit (b % 16), parse_pairs-hex bs)

-- A hex digit is one byte long.
pub utf8_width-hexdigit : (c : ℕ) → is_ascii_hexdigit c ≡ true → utf8_width c ≡ 1
unfolding utf8_width is_ascii_hexdigit
utf8_width-hexdigit c h = ground arith

pub byte_len-hexdigits : (s : Text) → all is_ascii_hexdigit s ≡ true → byte_len s ≡ length s
unfolding byte_len
byte_len-hexdigits [] h = refl
byte_len-hexdigits (c ∷ s) h = ground (arith, utf8_width-hexdigit c, byte_len-hexdigits s)

hex_value-lt : (c : ℕ) → is_ascii_hexdigit c ≡ true → hex_value c < 16
unfolding hex_value is_ascii_hexdigit
hex_value-lt c h = ground arith

hex_digit-hex_value : (c : ℕ) → is_ascii_hexdigit c ≡ true → hex_digit (hex_value c) ≡ ascii_lower c
unfolding hex_value hex_digit is_ascii_hexdigit ascii_lower
hex_digit-hex_value c h = ground arith

-- The two digits of a pair come back from the byte that it stands for.
parse_pair :
    (a b : ℕ)
    → is_ascii_hexdigit a ≡ true
    → is_ascii_hexdigit b ≡ true
    → let v = hex_value a * 16 + hex_value b in
      (hex_digit (v / 16) ≡ ascii_lower a) × (hex_digit (v % 16) ≡ ascii_lower b) × IsByte v
parse_pair a b ha hb =
    let p : hex_value a < 16 = hex_value-lt a ha in
    let q : hex_value b < 16 = hex_value-lt b hb in
    let high : (hex_value a * 16 + hex_value b) / 16 ≡ hex_value a = omega arith in
    let low : (hex_value a * 16 + hex_value b) % 16 ≡ hex_value b = omega arith in
    (rw high (hex_digit-hex_value a ha), rw low (hex_digit-hex_value b hb), omega arith)

pub length-parse_pairs : (n : ℕ) (s : Text) → length s ≡ 2 * n → length (parse_pairs s) ≡ n
unfolding parse_pairs
length-parse_pairs n [] e = omega arith
length-parse_pairs n (a ∷ []) e = absurd (omega arith)
length-parse_pairs zero (a ∷ b ∷ s) e = absurd (omega arith)
length-parse_pairs (suc n) (a ∷ b ∷ s) e = ap suc (length-parse_pairs n s (omega arith))

pub parse_pairs-IsByte : (s : Text) → all is_ascii_hexdigit s ≡ true → All IsByte (parse_pairs s)
unfolding parse_pairs
parse_pairs-IsByte [] h = tt
parse_pairs-IsByte (a ∷ []) h = tt
parse_pairs-IsByte (a ∷ b ∷ s) h =
    ((parse_pair a b (ground arith) (ground arith)).2, parse_pairs-IsByte s (ground arith))

-- What is read from hex digits prints as the same digits in lower case.
pub hex-parse_pairs :
    (n : ℕ) (s : Text)
    → all is_ascii_hexdigit s ≡ true
    → length s ≡ 2 * n
    → hex (parse_pairs s) ≡ to_ascii_lowercase s
unfolding hex parse_pairs to_ascii_lowercase
hex-parse_pairs n [] h e = refl
hex-parse_pairs n (a ∷ []) h e = absurd (omega arith)
hex-parse_pairs zero (a ∷ b ∷ s) h e = absurd (omega arith)
hex-parse_pairs (suc n) (a ∷ b ∷ s) h e =
    let pair = parse_pair a b (ground arith) (ground arith) in
    ground (arith, pair.0, pair.1, hex-parse_pairs n s (ground arith) (omega arith))
