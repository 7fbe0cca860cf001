-- ===== src/Tests/Concrete.antt =====
-- Libraries to run the definitions with: JSON values as a data type, a base64 that changes nothing, a strkey that
-- accepts nothing.
use Prim.Native.String.{String}
use sorseal.Base.{ℕ, Bool, List, [], ◌∷◌, Option, none, some, ◌≡◌, refl, ap, Text}
use sorseal.Interfaces.Json.{Json, lookup}
use sorseal.Interfaces.Encodings.{Base64, Base64Laws, Strkey}
use sorseal.Interfaces.Services.{Services, ServicesLaws}

mutual
  pub data JsonValue : Type 0 where
    an_object : Fields → JsonValue
    an_array : Elements → JsonValue
    a_string : Text → JsonValue
    a_number : ℕ → JsonValue
    a_boolean : Bool → JsonValue
    a_null : JsonValue

  pub data Fields : Type 0 where
    no_fields : Fields
    field : String → JsonValue → Fields → Fields

  pub data Elements : Type 0 where
    no_elements : Elements
    element : JsonValue → Elements → Elements

abbrev pub to_fields : List (String × JsonValue) → Fields
to_fields [] = no_fields
to_fields ((k, v) ∷ l) = field k v (to_fields l)

abbrev pub of_fields : Fields → List (String × JsonValue)
of_fields no_fields = []
of_fields (field k v l) = (k, v) ∷ of_fields l

abbrev pub to_elements : List JsonValue → Elements
to_elements [] = no_elements
to_elements (v ∷ l) = element v (to_elements l)

abbrev pub of_elements : Elements → List JsonValue
of_elements no_elements = []
of_elements (element v l) = v ∷ of_elements l

abbrev pub get_field : JsonValue → String → Option JsonValue
get_field (an_object fields) k = lookup k (of_fields fields)
get_field _ k = none

abbrev pub elements? : JsonValue → Option (List JsonValue)
elements? (an_array l) = some (of_elements l)
elements? _ = none

abbrev pub string? : JsonValue → Option Text
string? (a_string s) = some s
string? _ = none

abbrev pub number? : JsonValue → Option ℕ
number? (a_number n) = some n
number? _ = none

abbrev pub json_values : Json
json_values = record {
  Value = JsonValue;
  object = λ fields. an_object (to_fields fields);
  array = λ l. an_array (to_elements l);
  string = a_string;
  number = a_number;
  boolean = a_boolean;
  null = a_null;
  get = get_field;
  as_array = elements?;
  as_str = string?;
  as_u64 = number?;
}

abbrev pub plain_base64 : Base64
plain_base64 = record { encode = λ bs. bs; decode = λ t. some t }

abbrev pub plain_base64_laws : Base64Laws plain_base64
plain_base64_laws = record { decode-encode = λ bs. refl }

abbrev pub no_strkeys : Strkey
no_strkeys = record { from_string = λ s. none; to_string = λ bs. bs }

abbrev pub plain_services : Services
plain_services = record { json = json_values; base64 = plain_base64; strkey = no_strkeys }

of_fields-to_fields : (l : List (String × JsonValue)) → of_fields (to_fields l) ≡ l
of_fields-to_fields [] = refl
of_fields-to_fields ((k, v) ∷ l) = ap (◌∷◌ (k, v)) (of_fields-to_fields l)

of_elements-to_elements : (l : List JsonValue) → of_elements (to_elements l) ≡ l
of_elements-to_elements [] = refl
of_elements-to_elements (v ∷ l) = ap (◌∷◌ v) (of_elements-to_elements l)

pub plain_services_laws : ServicesLaws plain_services
plain_services_laws = record {
  json_laws = record {
    get-object = λ fields k. ap (lookup k) (of_fields-to_fields fields);
    as_array-array = λ l. ap some (of_elements-to_elements l);
    as_str-string = λ s. refl;
    as_str-null = refl;
    as_u64-number = λ n small. refl;
  };
  base64_laws = plain_base64_laws;
}
