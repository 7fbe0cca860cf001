-- ===== src/Interfaces/Encodings.antt =====
-- The base64 engine, and the strkey form of contract ids.
use sorseal.Base.{ℕ, ◌≡◌, Bool, true, ◌&&◌, ◌||◌, ◌∷◌, Option, some, leb, length, all, Text, Bytes}

-- `base64::engine::general_purpose::STANDARD`.
pub record Base64 : Type 0 where
  pub encode : Bytes → Text
  pub decode : Text → Option Bytes

pub record Base64Laws (B : Base64) : Type 0 where
  pub decode-encode : (bs : Bytes) → B.decode (B.encode bs) ≡ some bs

-- `stellar_strkey::Contract`.
pub record Strkey : Type 0 where
  pub from_string : Text → Option Bytes
  pub to_string : Bytes → Text

abbrev pub is_base32 : ℕ → Bool
is_base32 c = (leb b'A' c && leb c b'Z') || (leb b'2' c && leb c b'7')

-- A contract's strkey: 56 characters, of which the first is `C` and the others are of base32.
pub record IsContractStrkey (s : Text) : Type 0 where
  pub rest : Text
  pub starts : s ≡ b'C' ∷ rest
  pub width : length rest ≡ 55
  pub base32 : all is_base32 rest ≡ true

-- An id whose strkey is one, and is read as the id.
pub record HasStrkey (K : Strkey) (id : Bytes) : Type 0 where
  pub reads_back : K.from_string (K.to_string id) ≡ some id
  pub is_strkey : IsContractStrkey (K.to_string id)
