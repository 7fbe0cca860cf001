-- ===== src/Audit/Event.antt =====
-- `is_executable_update`, `decode_wasm_executable`, `decode_upgrade_event` and the request filter.
use Prim.Native.String.{String}
use sorseal.Base.{
  ℕ, ◌%◌, ◌^◌, ◌++◌, Bool, false, not, ◌&&◌, List, [], ◌∷◌, Option, none, some, nat_beq, ◌==◌,
  text_eq, length, text, Text, Bytes, Result, ok, err, panic, ◌>>=◌, ◌>>◌, bail, bail_if, ok_or,
  txt, num, and_then, unwrap_or,
}
use sorseal.Interfaces.Encodings.{Base64, Strkey}
use sorseal.Interfaces.Services.{Services, Value}
use sorseal.Digest.Hex.{hex}
use sorseal.Onchain.ContractId.{normalize_contract_id}
use sorseal.Onchain.Cursor.{new, read_u32, take_bytes, expect_tag, to_be_bytes}
use sorseal.Onchain.Tags.{scv_vec, scv_optional_present, scv_symbol, scv_bytes}

pub record UpgradeEvent : Type 0 where
  pub ledger : ℕ
  pub closed_at : Text
  pub tx_hash : Text
  pub contract : Text
  pub old_wasm : Text
  pub new_wasm : Text

unfoldable pub executable_update : Bytes
unfolding text
executable_update = text "executable_update"

abbrev pub executable_update_len : ℕ
executable_update_len = 17

-- The topic matcher: tag, length, the name, three bytes of padding.
unfoldable pub executable_update_scval : Base64 → Text
executable_update_scval B = B.encode (
    to_be_bytes scv_symbol
    ++ (to_be_bytes executable_update_len ++ (executable_update ++ (0 ∷ 0 ∷ 0 ∷ []))))

-- What `is_executable_update` reads of the decoded topic.
unfoldable pub read_symbol : Bytes → Result (ℕ × Bytes)
unfolding new
read_symbol bytes = do
  (tag, cur) ← read_u32 (new bytes) "topic type"
  (len, cur) ← read_u32 cur "topic symbol length"
  (sym, _) ← take_bytes cur len "topic symbol"
  ok (tag, sym)

-- `let Ok(…) else { return false; }` on what was read: an error is no, a panic goes on.
unfoldable pub is_update_symbol : Result (ℕ × Bytes) → Result Bool
is_update_symbol (ok (tag, sym)) = ok (nat_beq tag scv_symbol && sym == executable_update)
is_update_symbol (err e) = ok false
is_update_symbol panic = panic

unfoldable pub is_executable_update : Base64 → Text → Result Bool
unfolding is_update_symbol
is_executable_update B topic0 = elim (B.decode topic0) [
  | none ↦ ok false
  | some bytes ↦ is_update_symbol (read_symbol bytes)
]

unfoldable pub wasm_kind : Bytes
unfolding text
wasm_kind = text "Wasm"

-- `decode_wasm_executable` on the decoded bytes.
unfoldable pub read_wasm_executable : Bytes → Result Text
unfolding new
read_wasm_executable bytes = do
  cur ← expect_tag (new bytes) scv_vec "executable SCVal type"
  cur ← expect_tag cur scv_optional_present "executable vec present"
  cur ← expect_tag cur 2 "executable vec length"
  cur ← expect_tag cur scv_symbol "executable kind type"
  (kind_len, cur) ← read_u32 cur "executable kind length"
  bail_if (not (nat_beq kind_len 4)) "unexpected executable kind length {kind_len}"
      (num kind_len ∷ [])
  (kind, cur) ← take_bytes cur 4 "executable kind"
  bail_if (not (kind == wasm_kind)) "unexpected executable kind '{}' (expected 'Wasm')"
      (txt kind ∷ [])
  cur ← expect_tag cur scv_bytes "wasm hash type"
  (hash_len, cur) ← read_u32 cur "wasm hash length"
  bail_if (not (nat_beq hash_len 32)) "unexpected wasm hash length {hash_len}" (num hash_len ∷ [])
  (hash, _) ← take_bytes cur 32 "wasm hash"
  ok (hex hash)

unfoldable pub decode_wasm_executable : Base64 → Text → Result Text
decode_wasm_executable B topic = do
  bytes ← ok_or (B.decode topic) "executable topic is not valid base64" []
  read_wasm_executable bytes

-- `map(normalize).transpose()?.ok_or_else(…)`.
unfoldable pub normalize_field : Strkey → Option Text → Result Text
normalize_field K none = bail "event has no contractId" []
normalize_field K (some c) = normalize_contract_id K c

module _ (S : Services) where
  open S use {json, base64, strkey}

  unfoldable pub upgrade_event_filter : Value S
  upgrade_event_filter = json.array (
      json.object (
        ("type", json.string (text "system"))
        ∷ (
          "topics",
          json.array (
              json.array (
                json.string (executable_update_scval base64)
                ∷ json.string (text "*")
                ∷ json.string (text "*")
                ∷ [])
              ∷ []),
        )
        ∷ [])
      ∷ [])

  -- The three topics as strings; the first must be the update symbol before the others are read.
  unfoldable pub event_topics : List (Value S) → Result (Text × Text)
  event_topics (v0 ∷ v1 ∷ v2 ∷ []) = do
    t0 ← ok_or (json.as_str v0) "event topic[0] is not a string" []
    is_update ← is_executable_update base64 t0
    bail_if (not is_update) "event topic[0] is not an executable_update symbol" []
    t1 ← ok_or (json.as_str v1) "event topic[1] is not a string" []
    t2 ← ok_or (json.as_str v2) "event topic[2] is not a string" []
    ok (t1, t2)
  event_topics topics =
      bail "expected 3 executable_update topics, got {}" (num (length topics) ∷ [])

  -- A string field, or the empty text.
  unfoldable pub text_field : Value S → String → Text
  text_field raw key = unwrap_or (and_then (json.get raw key) json.as_str) []

  -- The number of the ledger, cut to 32 bits; 0 where there is none.
  unfoldable pub ledger_field : Value S → ℕ
  ledger_field raw = unwrap_or (and_then (json.get raw "ledger") json.as_u64) 0 % 2 ^ 32

  unfoldable pub contract_field : Value S → Result Text
  unfolding normalize_field
  contract_field raw = normalize_field strkey (and_then (json.get raw "contractId") json.as_str)

  unfoldable pub decode_upgrade_event : Value S → Result UpgradeEvent
  unfolding event_topics text_field ledger_field contract_field
  decode_upgrade_event raw = do
    topics ← ok_or (and_then (json.get raw "topic") json.as_array) "event has no topic array" []
    (t1, t2) ← event_topics topics
    contract ← contract_field raw
    old_wasm ← decode_wasm_executable base64 t1
    new_wasm ← decode_wasm_executable base64 t2
    ok (record {
      ledger = ledger_field raw;
      closed_at = text_field raw "ledgerClosedAt";
      tx_hash = text_field raw "txHash";
      contract = contract;
      old_wasm = old_wasm;
      new_wasm = new_wasm;
    })
