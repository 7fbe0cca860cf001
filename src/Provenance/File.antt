-- ===== src/Provenance/File.antt =====
-- `Provenance::load` and `save` of src/provenance.rs. serde_json reads and writes the record by code that a derive
-- generates: a parameter.
use sorseal.Base.{◌++◌, [], ◌∷◌, Option, Text, Result, ok, ◌>>=◌, ◌>>◌, ok_or, with_context, txt}
use sorseal.Base.Utf8.{as_bytes}
use sorseal.Interfaces.Drive.{Drive, read_to_string}
use sorseal.Provenance.{Provenance, validate}

unfoldable pub load : (D : Drive) → (Text → Option Provenance) → D.State → Text → Result Provenance
load D from_str s path = do
  contents ← with_context (read_to_string D s path) "failed to read {}" (txt path ∷ [])
  p ← ok_or (from_str contents) "invalid provenance JSON in {}: {e}" (txt path ∷ [])
  validate p
  ok p

unfoldable pub save :
    (D : Drive) → (Provenance → Text) → Provenance → D.State → Text → Result (Unit {0}) × D.State
save D to_string_pretty p s path = D.write s path (as_bytes (to_string_pretty p ++ b'\n' ∷ []))
