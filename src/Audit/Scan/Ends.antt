-- ===== src/Audit/Scan/Ends.antt =====
-- The scan comes back, whatever the node answers.
use sorseal.Base.{ℕ, ◌≡◌, ◌<◌, Text, text_eq}
use sorseal.Interfaces.Encodings.{Strkey}
use sorseal.Interfaces.Services.{Services, Value}
use sorseal.Onchain.ContractId.{normalize_contract_id, normalize_trimmed}
use sorseal.Audit.NoPanic.{returns, Returns}
use sorseal.Audit.Scan.{Scan, Node}

pub normalize_contract_id-Returns : (K : Strkey) (id : Text) → Returns (normalize_contract_id K id)
unfolding normalize_contract_id normalize_trimmed
normalize_contract_id-Returns K id = search returns depth 12

module _ (S : Services) where
  open S use {json, base64}

  module _ (last : ℕ) (contract_hex : Text) where
    -- Both nodes answer the requests with smaller numbers than this in the same way.
    abbrev pub AgreeBelow : ℕ → Node S → Node S → Type 0
    AgreeBelow bound node node' = (n : ℕ) (v : Value S) → n < bound → node n v ≡ node' n v
