-- ===== src/Interfaces/Serde.antt =====
-- serde_json's readers and writers of whole values.
use sorseal.Base.{◌≡◌, [], ◌∷◌, ◌++◌, Option, some, Text, Bytes, All}
use sorseal.Base.Utf8.{IsScalar}
use sorseal.Interfaces.Json.{Json}

pub record Serde (J : Json) : Type 0 where
  pub to_vec : J.Value → Bytes
  pub from_slice : Bytes → Option J.Value
  pub to_string_pretty : J.Value → Text
  pub from_str : Text → Option J.Value

module _ {J : Json} (R : Serde J) where
  -- A value that is written as bytes is read as the same value.
  abbrev pub ReadsBack : J.Value → Type 0
  ReadsBack v = R.from_slice (R.to_vec v) ≡ some v

  -- A value that is printed is read as the same value, with a line end behind it, and a string holds scalar values.
  abbrev pub PrintsBack : J.Value → Type 0
  PrintsBack v =
      (R.from_str (R.to_string_pretty v ++ b'\n' ∷ []) ≡ some v)
      × All IsScalar (R.to_string_pretty v)
