-- ===== src/Onchain/ContractId.antt =====
-- `hex_to_bytes` and `normalize_contract_id` of src/onchain.rs, with the string methods they use.
pub mod HexId
pub mod Normal
use sorseal.Base.{
  ℕ, ◌*◌, ◌≡◌, refl, ◌≢◌, sym, ◌∙◌, Bool, true, false, not, ◌&&◌, ◌||◌, List, [], ◌∷◌, Option, none,
  some, arith, if◌then◌else◌, nat_beq, leb, length, all, All, text, Text, Bytes, byte_len,
  is_ascii_hexdigit, to_ascii_lowercase, Result, ok, err, panic, ◌>>=◌, ◌>>◌, bail, ok_or, bail_if,
  txt, trim,
}
use sorseal.Interfaces.Encodings.{Strkey}
use sorseal.Digest.Hex.{
  hex, parse_pairs, IsByte, length-hex, hex-all_hexdigit, to_ascii_lowercase-hex, parse_pairs-hex,
  byte_len-hexdigits, hex-parse_pairs, length-parse_pairs, parse_pairs-IsByte,
}

-- `id.strip_prefix("0x").unwrap_or(id)`.
unfoldable pub strip_0x : Text → Text
strip_0x (a ∷ b ∷ s) = if nat_beq a b'0' && nat_beq b b'x' then s else a ∷ b ∷ s
strip_0x s = s

-- The test that both functions make: 64 bytes, all of them hex digits.
unfoldable pub is_hex_id : Text → Bool
is_hex_id s = nat_beq (byte_len s) 64 && all is_ascii_hexdigit s

unfoldable pub hex_to_bytes : Text → Result Bytes
unfolding is_hex_id
hex_to_bytes s =
    if not (is_hex_id s)
    then bail "invalid hex contract id: must be exactly 64 hex chars" []
    else ok (parse_pairs s)

unfoldable pub starts_with_C : Text → Bool
starts_with_C [] = false
starts_with_C (c ∷ s) = nat_beq c b'C'

-- `normalize_contract_id` on the trimmed id and the hex that may be in it.
unfoldable pub normalize_trimmed : Strkey → Text → Text → Result Text
unfolding is_hex_id starts_with_C
normalize_trimmed K id hex_part =
    if is_hex_id hex_part
    then ok (to_ascii_lowercase hex_part)
    else if starts_with_C id
    then (do
      raw ← ok_or (K.from_string id) "invalid contract strkey '{id}': {e}" (txt id ∷ [])
      ok (hex raw))
    else bail "contract id must be a C... strkey or 64 hex chars, got '{}'" (txt id ∷ [])

unfoldable pub normalize_contract_id : Strkey → Text → Result Text
unfolding normalize_trimmed trim strip_0x
normalize_contract_id K id = normalize_trimmed K (trim id) (strip_0x (trim id))
