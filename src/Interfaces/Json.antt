-- ===== src/Interfaces/Json.antt =====
-- serde_json's `Value`: what `json!` builds, and how `get`, `as_str`, `as_array`, `as_u64` read it.
use Prim.Native.String.{String}
use text.Mathlib.Text.{◌==◌ as str_eq}
use sorseal.Base.{ℕ, ◌<◌, ◌^◌, ◌≡◌, Bool, List, [], ◌∷◌, Option, none, some, Text, if◌then◌else◌}

abbrev pub lookup {ℓ} : {A : Type ℓ} → String → List (String × A) → Option A
lookup k [] = none
lookup k ((j, v) ∷ fields) = if str_eq j k then some v else lookup k fields

pub record Json : Type 1 where
  pub Value : Type 0
  pub object : List (String × Value) → Value
  pub array : List Value → Value
  pub string : Text → Value
  pub number : ℕ → Value
  pub boolean : Bool → Value
  pub null : Value
  pub get : Value → String → Option Value
  pub as_array : Value → Option (List Value)
  pub as_str : Value → Option Text
  pub as_u64 : Value → Option ℕ

-- What the documentation of serde_json promises of the values that `json!` builds.
pub record JsonLaws (J : Json) : Type 0 where
  pub get-object :
      (fields : List (String × J.Value)) (k : String) → J.get (J.object fields) k ≡ lookup k fields
  pub as_array-array : (vs : List J.Value) → J.as_array (J.array vs) ≡ some vs
  pub as_str-string : (s : Text) → J.as_str (J.string s) ≡ some s
  pub as_str-null : J.as_str J.null ≡ none
  pub as_u64-number : (n : ℕ) → n < 2 ^ 64 → J.as_u64 (J.number n) ≡ some n
