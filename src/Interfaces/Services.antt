-- ===== src/Interfaces/Services.antt =====
-- The libraries that the on-chain commands call, together.
use sorseal.Base.{Result}
use sorseal.Interfaces.Json.{Json, JsonLaws}
use sorseal.Interfaces.Encodings.{Base64, Base64Laws, Strkey}

pub record Services : Type 1 where
  pub json : Json
  pub base64 : Base64
  pub strkey : Strkey

pub record ServicesLaws (S : Services) : Type 0 where
  pub json_laws : JsonLaws S.json
  pub base64_laws : Base64Laws S.base64

abbrev pub Value : Services → Type 0
Value S = S.json.Value

-- `Transport::post`: a request in, a response or an error out.
abbrev pub Transport : Services → Type 0
Transport S = Value S → Result (Value S)
