-- ===== src/Sim/Ledger/Answered.antt =====
-- What the MockTransport of src/sim.rs answers to the requests of src/onchain.rs and src/audit.rs.
use sorseal.Base.{
  ℕ, ◌%◌, ◌^◌, ◌≡◌, ◌≤◌, ◌<◌, refl, ap, sym, true, false, List, [], ◌∷◌, Option, none, some, leb,
  ◌==◌, ==_refl, text_eq, text, Text, Bytes, ok, and_then, unwrap_or, arith,
}
use Prim.Native.String.{String}
use sorseal.Interfaces.Json.{lookup}
use sorseal.Interfaces.Services.{Services, ServicesLaws, Value}
use sorseal.Onchain.Verify.{entries_request, entry_of_response}
use sorseal.Audit.Scan.{events_request, events_params, page_events, page_cursor}
use sorseal.Audit.Scan.Complete.{Served, raws}
use sorseal.Audit.Scan.History.{Answers}
use sorseal.Audit.Window.{window_request, window_of, window_of_result, rpc_ledger_window}
use sorseal.Sign.Envelope.RoundTrip.{field_str, field_array}
use sorseal.Sim.Ledger.{MockLedger, id_of, events_response, entries_response, mock_post}

module _ (S : Services) (laws : ServicesLaws S) (l : MockLedger S) where
  open S use {json}

  by_method :
      (fields : List (String × Value S)) (name : Text)
      → lookup "method" fields ≡ some (json.string name)
      → unwrap_or (and_then (json.get (json.object fields) "method") json.as_str) [] ≡ name
  by_method fields name h = rw (field_str laws.json_laws fields "method" name h) refl

  number_field :
      (fields : List (String × Value S)) (k : String) (n : ℕ)
      → lookup k fields ≡ some (json.number n)
      → n < 2 ^ 64
      → and_then (json.get (json.object fields) k) json.as_u64 ≡ some n
  number_field fields k n h small =
      rw (laws.json_laws.get-object fields k) (rw h (laws.json_laws.as_u64-number n small))

  not_entries : (text "getEvents" == text "getLedgerEntries") ≡ false
  unfolding text
  not_entries = refl

  -- The result in the answer to a request for events.
  abbrev window_result : Value S
  window_result = json.object (
      ("latestLedger", json.number l.latest_ledger)
      ∷ ("oldestLedger", json.number l.oldest_ledger)
      ∷ ("events", json.array l.events)
      ∷ ("cursor", json.null)
      ∷ [])

  abbrev answer : Value S
  answer = json.object (
      ("jsonrpc", json.string (text "2.0"))
      ∷ ("id", json.number 1)
      ∷ ("result", window_result)
      ∷ [])

  early_test : (start oldest : ℕ) → start ≤ oldest → leb start oldest ≡ true
  early_test start oldest h = ground arith

  events_response-answer :
      (fields params : List (String × Value S)) (start : ℕ)
      → lookup "id" fields ≡ some (json.number 1)
      → lookup "params" fields ≡ some (json.object params)
      → unwrap_or
          (and_then (json.get (json.object params) "startLedger") json.as_u64)
          l.oldest_ledger
        ≡ start
      → start ≤ l.oldest_ledger
      → events_response S l (json.object fields) ≡ answer
  unfolding events_response id_of
  events_response-answer fields params start id_is params_are start_is early =
      rw (laws.json_laws.get-object fields "params", events_response)
        (rw params_are (
          rw start_is (
            rw (early_test start l.oldest_ledger early)
              (rw (laws.json_laws.get-object fields "id", id_of) (rw id_is refl)))))

  -- A request for events from a start that is not past the oldest ledger, or with a cursor.
  mock_post-events :
      (fields params : List (String × Value S)) (start : ℕ)
      → lookup "method" fields ≡ some (json.string (text "getEvents"))
      → lookup "id" fields ≡ some (json.number 1)
      → lookup "params" fields ≡ some (json.object params)
      → unwrap_or
          (and_then (json.get (json.object params) "startLedger") json.as_u64)
          l.oldest_ledger
        ≡ start
      → start ≤ l.oldest_ledger
      → mock_post S l (json.object fields) ≡ ok answer
  unfolding mock_post
  mock_post-events fields params start method id_is params_are start_is early =
      rw (by_method fields (text "getEvents") method) (
        rw not_entries (
          rw (==_refl (text "getEvents"))
            (ap ok (events_response-answer fields params start id_is params_are start_is early))))

  pub mock_post-events_request :
      (start : ℕ) (c : Option Text)
      → start ≤ l.oldest_ledger
      → l.oldest_ledger < 2 ^ 32
      → mock_post S l (events_request S start c) ≡ ok answer
  unfolding events_request events_params
  mock_post-events_request start (some c) early small =
      mock_post-events _ _ l.oldest_ledger refl refl refl
        (rw (laws.json_laws.get-object _ "startLedger") refl) (omega arith)
  mock_post-events_request start none early small =
      mock_post-events _ _ start refl refl refl
        (rw (number_field _ "startLedger" start refl (omega arith)) refl) early

  pub mock_post-window_request :
      1 ≤ l.oldest_ledger → l.oldest_ledger < 2 ^ 32 → mock_post S l (window_request S) ≡ ok answer
  unfolding window_request
  mock_post-window_request early small =
      mock_post-events _ _ 1 refl refl refl
        (rw (number_field _ "startLedger" 1 refl (omega arith)) refl) early

  answer-error : json.get answer "error" ≡ none
  answer-error = rw (laws.json_laws.get-object _ "error") refl

  answer-result : json.get answer "result" ≡ some window_result
  answer-result = rw (laws.json_laws.get-object _ "result") refl

  -- The window is the ledger's own.
  pub rpc_ledger_window-mock_post :
      1 ≤ l.oldest_ledger
      → l.oldest_ledger < 2 ^ 32
      → l.latest_ledger < 2 ^ 32
      → rpc_ledger_window S (mock_post S l) ≡ ok (l.oldest_ledger, l.latest_ledger)
  unfolding rpc_ledger_window window_of window_of_result
  rpc_ledger_window-mock_post early small recent = rw (mock_post-window_request early small) (
      rw answer-error (
        rw answer-result (
          rw (number_field _ "latestLedger" l.latest_ledger refl (omega arith)) (
            rw (number_field _ "oldestLedger" l.oldest_ledger refl (omega arith))
              (rw (cut l.oldest_ledger small) (rw (cut l.latest_ledger recent) refl))))))
    where
      cut : (n : ℕ) → n < 2 ^ 32 → n % 2 ^ 32 ≡ n
      cut n h = omega arith

  -- A scan gets all the events on the first page, and no cursor.
  pub mock_post-Answers :
      (start n : ℕ) (page : List (Served S))
      → start ≤ l.oldest_ledger
      → l.oldest_ledger < 2 ^ 32
      → raws page ≡ l.events
      → Answers S (λ k v. mock_post S l v) start n none page none
  unfolding page_events page_cursor
  mock_post-Answers start n page early small events = record {
    resp = answer;
    result = window_result;
    gives = mock_post-events_request start none early small;
    no_error = answer-error;
    result_is = answer-result;
    events_are = rw (field_array laws.json_laws _ "events" l.events refl) (sym events);
    cursor_is = rw (laws.json_laws.get-object _ "cursor") (laws.json_laws.as_str-null);
  }

  -- The answer to the request for the contract's entry.
  pub mock_post-entries_request :
      (id : Bytes)
      → mock_post S l (entries_request S id) ≡ ok (entries_response S l (entries_request S id))
  unfolding mock_post entries_request
  mock_post-entries_request id =
      rw (by_method _ (text "getLedgerEntries") refl) (rw (==_refl (text "getLedgerEntries")) refl)

  pub entries_response-error :
      (body : Value S) → json.get (entries_response S l body) "error" ≡ none
  unfolding entries_response
  entries_response-error body = rw (laws.json_laws.get-object _ "error") refl

  pub entry_of_response-entries_response :
      (contract_id : Text) (body : Value S)
      → entry_of_response S contract_id (entries_response S l body) ≡ ok l.current_entry_b64
  unfolding entry_of_response entries_response
  entry_of_response-entries_response contract_id body = rw (laws.json_laws.get-object _ "result") (
      rw (field_array laws.json_laws _ "entries" _ refl)
        (rw (field_str laws.json_laws _ "xdr" l.current_entry_b64 refl) refl))
