-- ===== src/Tests/History.antt =====
-- A scan of a node that serves two events on two pages.
use sorseal.Base.{
  ℕ, ◌≡◌, ◌≢◌, ◌≤◌, ◌<◌, refl, List, [], ◌∷◌, Option, some, none, All, filter, length, replicate,
  Text, Bytes, Result, ok, arith, Ensures, and_then,
}
use sorseal.Audit.Event.{UpgradeEvent, executable_update_scval, decode_upgrade_event, text_field}
use sorseal.Audit.Scan.{Node, max_pages, scan_upgrade_events}
use sorseal.Audit.Scan.Sound.{IsWanted, IsSorted, scan_upgrade_events-IsWanted}
use sorseal.Audit.Scan.Complete.{Served}
use sorseal.Audit.Scan.History.{Answers, page, last_page, in_window, scan_upgrade_events-Serves}
use sorseal.Sim.Encode.{wasm_scval}
use sorseal.Tests.Concrete.{
  JsonValue, an_object, an_array, a_string, a_number, no_fields, field, no_elements, element,
  plain_base64, plain_services, get_field,
}

abbrev contract_a : Text
contract_a = replicate 64 97

abbrev raw_event : ℕ → ℕ → JsonValue
raw_event name ledger = an_object (
    field "id" (a_string (name ∷ [])) (
      field "ledger" (a_number ledger) (
        field "contractId" (a_string contract_a) (
          field "topic"
            (an_array (
              element (a_string (executable_update_scval plain_base64)) (
                element (a_string (wasm_scval (replicate 32 170)))
                  (element (a_string (wasm_scval (replicate 32 187))) no_elements))))
            no_fields))))

abbrev event_at : ℕ → UpgradeEvent
event_at ledger = record {
  ledger = ledger;
  closed_at = [];
  tx_hash = [];
  contract = contract_a;
  old_wasm = contract_a;
  new_wasm = replicate 64 98;
}

abbrev first_page : JsonValue
first_page = an_object (
    field "events" (an_array (element (raw_event b'e' 7) no_elements))
      (field "cursor" (a_string (b'n' ∷ [])) no_fields))

abbrev second_page : JsonValue
second_page =
    an_object (field "events" (an_array (element (raw_event b'f' 8) no_elements)) no_fields)

abbrev cursor_sent : JsonValue → Option JsonValue
cursor_sent v =
    and_then (get_field v "params")
      (λ p. and_then (get_field p "pagination") (λ q. get_field q "cursor"))

-- The second page stands behind the cursor of the first.
abbrev the_node : Node plain_services
the_node n v = elim (cursor_sent v) [
  | none ↦ ok (an_object (field "result" first_page no_fields))
  | some c ↦ ok (an_object (field "result" second_page no_fields))
]

first_decodes : decode_upgrade_event plain_services (raw_event b'e' 7) ≡ ok (event_at 7)
unfolding decode_upgrade_event sorseal.Audit.Event.is_executable_update
    sorseal.Audit.Event.read_symbol sorseal.Onchain.Cursor.read_u32 sorseal.Onchain.Cursor.slice
    executable_update_scval sorseal.Onchain.Cursor.to_be_bytes sorseal.Audit.Event.executable_update
    sorseal.Onchain.Cursor.from_be_bytes sorseal.Onchain.Cursor.take_bytes
    sorseal.Onchain.ContractId.normalize_contract_id sorseal.Base.byte_len
    sorseal.Base.is_ascii_hexdigit sorseal.Audit.Event.decode_wasm_executable
    sorseal.Audit.Event.read_wasm_executable sorseal.Onchain.Cursor.expect_tag wasm_scval
    sorseal.Audit.Event.wasm_kind sorseal.Base.to_ascii_lowercase sorseal.Digest.Hex.hex
first_decodes = refl

second_decodes : decode_upgrade_event plain_services (raw_event b'f' 8) ≡ ok (event_at 8)
unfolding decode_upgrade_event sorseal.Audit.Event.is_executable_update
    sorseal.Audit.Event.read_symbol sorseal.Onchain.Cursor.read_u32 sorseal.Onchain.Cursor.slice
    executable_update_scval sorseal.Onchain.Cursor.to_be_bytes sorseal.Audit.Event.executable_update
    sorseal.Onchain.Cursor.from_be_bytes sorseal.Onchain.Cursor.take_bytes
    sorseal.Onchain.ContractId.normalize_contract_id sorseal.Base.byte_len
    sorseal.Base.is_ascii_hexdigit sorseal.Audit.Event.decode_wasm_executable
    sorseal.Audit.Event.read_wasm_executable sorseal.Onchain.Cursor.expect_tag wasm_scval
    sorseal.Audit.Event.wasm_kind sorseal.Base.to_ascii_lowercase sorseal.Digest.Hex.hex
second_decodes = refl

id_is : (name ledger : ℕ) → text_field plain_services (raw_event name ledger) "id" ≡ name ∷ []
unfolding text_field
id_is name ledger = refl

named : (name : ℕ) → name ∷ [] ≢ []
named name h = cc

abbrev first_served : Served plain_services
first_served = record {
  raw = raw_event b'e' 7;
  id = b'e' ∷ [];
  event = event_at 7;
  id_is = id_is b'e' 7;
  named = named b'e';
  decodes = first_decodes;
}

abbrev second_served : Served plain_services
second_served = record {
  raw = raw_event b'f' 8;
  id = b'f' ∷ [];
  event = event_at 8;
  id_is = id_is b'f' 8;
  named = named b'f';
  decodes = second_decodes;
}

first_answer : Answers plain_services the_node 1 0 none (first_served ∷ []) (some (b'n' ∷ []))
unfolding sorseal.Audit.Scan.page_events sorseal.Audit.Scan.page_cursor
    sorseal.Audit.Scan.events_request sorseal.Audit.Scan.events_params
first_answer = record {
  resp = an_object (field "result" first_page no_fields);
  result = first_page;
  gives = refl;
  no_error = refl;
  result_is = refl;
  events_are = refl;
  cursor_is = refl;
}

second_answer : Answers plain_services the_node 1 1 (some (b'n' ∷ [])) (second_served ∷ []) none
unfolding sorseal.Audit.Scan.page_events sorseal.Audit.Scan.page_cursor
    sorseal.Audit.Scan.events_request sorseal.Audit.Scan.events_params
second_answer = record {
  resp = an_object (field "result" second_page no_fields);
  result = second_page;
  gives = refl;
  no_error = refl;
  result_is = refl;
  events_are = refl;
  cursor_is = refl;
}

scan_upgrade_events-Serves_example :
    scan_upgrade_events plain_services 9 contract_a the_node 1
    ≡ ok (filter (in_window 9 contract_a) (event_at 7 ∷ event_at 8 ∷ []))
scan_upgrade_events-Serves_example =
    scan_upgrade_events-Serves plain_services 9 contract_a the_node 1
      ((first_served ∷ []) ∷ (second_served ∷ []) ∷ [])
      (page first_answer (last_page second_answer)) (omega arith) (refl, (refl, tt))
      ((omega arith, tt), (tt, tt))

scan_upgrade_events-IsWanted_example :
    Ensures
      (λ evs. All (IsWanted 9 contract_a) evs × IsSorted evs)
      (scan_upgrade_events plain_services 9 contract_a the_node 1)
scan_upgrade_events-IsWanted_example =
    scan_upgrade_events-IsWanted 9 contract_a plain_services the_node 1
