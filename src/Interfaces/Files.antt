-- ===== src/Interfaces/Files.antt =====
-- The file system as the commands see it during one run, and SHA-256.
use sorseal.Base.{Bool, Text, Bytes, Result}

pub record Files : Type 0 where
  pub exists : Text → Bool
  pub is_dir : Text → Bool
  pub read : Text → Result Bytes

-- `Sha256` over all the bytes that it is fed.
abbrev pub Sha256 : Type 0
Sha256 = Bytes → Bytes
