-- ===== src/Onchain/ContractId/Normal.antt =====
-- The normal form of contract ids.
use sorseal.Base.{
  ◌≡◌, refl, ◌∙◌, ap, true, [], ◌∷◌, inl, inr, arith, length, all, All, Text, Bytes, trim,
  is_ascii_hexdigit, to_ascii_lowercase, ok, Bool-cases, some, Option-cases,
}
use sorseal.Interfaces.Encodings.{Strkey}
use sorseal.Digest.Hex.{hex, IsByte, to_ascii_lowercase-hex}
use sorseal.Digest.Blank.{trim-hexdigits}
use sorseal.Onchain.ContractId.{strip_0x, is_hex_id, normalize_trimmed, normalize_contract_id}
use sorseal.Onchain.ContractId.HexId.{
  IsHexId, is_hex_id-IsHexId, IsHexId-is_hex_id, hex-IsHexId, to_ascii_lowercase_idem,
  to_ascii_lowercase-IsHexId,
}

-- 64 hex digits, all in lower case.
pub record IsNormalId (s : Text) : Type 0 where
  pub hex_id : IsHexId s
  pub lower : to_ascii_lowercase s ≡ s

-- A strkey holds 32 bytes.
abbrev pub HoldsIds : Strkey → Type 0
HoldsIds K =
    (s : Text) (raw : Bytes) → K.from_string s ≡ some raw → (length raw ≡ 32) × All IsByte raw

normalize_trimmed-IsNormalId :
    (K : Strkey)
    → HoldsIds K
    → (id part : Text) {s : Text} → normalize_trimmed K id part ≡ ok s
    → IsNormalId s
unfolding normalize_trimmed
normalize_trimmed-IsNormalId K ids id part {s} h = elim (Bool-cases (is_hex_id part)) [
  | inl good ↦
      let e : to_ascii_lowercase part ≡ s = ground arith in
      rw (← e) (record {
        hex_id = to_ascii_lowercase-IsHexId part (is_hex_id-IsHexId part good);
        lower = to_ascii_lowercase_idem part;
      })
  | inr bad ↦ elim (Option-cases (K.from_string id)) [
    | inl missing ↦ absurd (ground arith)
    | inr (raw, found) ↦
        let e : hex raw ≡ s = ground arith in
        let (len, byte) = ids id raw found in
        rw (← e)
          (record { hex_id = hex-IsHexId raw len byte; lower = to_ascii_lowercase-hex raw byte })
  ]
]

strip_0x-digits : (s : Text) → all is_ascii_hexdigit s ≡ true → strip_0x s ≡ s
unfolding strip_0x is_ascii_hexdigit
strip_0x-digits [] h = refl
strip_0x-digits (a ∷ []) h = refl
strip_0x-digits (a ∷ b ∷ s) h = ground arith

pub normalize-IsHexId :
    (K : Strkey) (s : Text) → IsHexId s → normalize_contract_id K s ≡ ok (to_ascii_lowercase s)
unfolding normalize_contract_id normalize_trimmed
normalize-IsHexId K s h =
    rw (trim-hexdigits s h.digits, strip_0x-digits s h.digits) (rw (IsHexId-is_hex_id s h))

-- Where strkeys hold 32 bytes, an accepted contract id, in any form, becomes 64 lower-case hex
-- digits, and these are accepted again and stay as they are.
pub normalize_contract_id-IsNormalId :
    (K : Strkey)
    → HoldsIds K
    → (id : Text) {s : Text} → normalize_contract_id K id ≡ ok s
    → IsNormalId s × (normalize_contract_id K s ≡ ok s)
unfolding normalize_contract_id
normalize_contract_id-IsNormalId K ids id {s} h =
    let n : IsNormalId s = normalize_trimmed-IsNormalId K ids (trim id) (strip_0x (trim id)) h in
    (n, normalize-IsHexId K s n.hex_id ∙ ap ok n.lower)
