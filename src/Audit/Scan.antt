-- ===== src/Audit/Scan.antt =====
-- `scan_upgrade_events` of src/audit.rs.
pub mod Ends
pub mod Sound
pub mod Complete
pub mod History
use Prim.Native.String.{String}
use sorseal.Base.{
  ℕ, zero, suc, ◌+◌, ◌≡◌, ◌++◌, Bool, true, false, not, ◌||◌, List, [], ◌∷◌, Option, none, some,
  if◌then◌else◌, ltb, leb, ◌==◌, text_eq, contains, text, Text, Result, ok, err, panic, ◌>>=◌, ◌>>◌,
  bail, ok_or, and_then, unwrap_or,
}
use sorseal.Interfaces.Services.{Services, Value}
use sorseal.Onchain.Verify.{check_error}
use sorseal.Audit.Event.{UpgradeEvent, upgrade_event_filter, text_field, decode_upgrade_event}

abbrev pub page_limit : ℕ
page_limit = 200

abbrev pub max_pages : ℕ
max_pages = 10000

-- What the scan has collected: the ids seen, the last one first, and the events in order.
pub record Scan : Type 0 where
  pub seen : List Text
  pub events : List UpgradeEvent

abbrev pub empty_scan : Scan
empty_scan = record { seen = []; events = [] }

-- A stable sort by ledger: an event goes in front of the first one with a ledger not below its own.
unfoldable pub insert_event : UpgradeEvent → List UpgradeEvent → List UpgradeEvent
insert_event e [] = e ∷ []
insert_event e (f ∷ l) = if leb e.ledger f.ledger then e ∷ f ∷ l else f ∷ insert_event e l

unfoldable pub sort_by_ledger : List UpgradeEvent → List UpgradeEvent
unfolding insert_event
sort_by_ledger [] = []
sort_by_ledger (e ∷ l) = insert_event e (sort_by_ledger l)

-- `past_end = true; break`.
unfoldable pub stop_at : Bool → Scan → (Scan → Result (Scan × Bool)) → Result (Scan × Bool)
stop_at true s next = ok (s, true)
stop_at false s next = next s

-- The end of a round: it stops past the window, and where the node gives no cursor.
unfoldable pub after_page : Bool → Option Text → Scan → (Text → Scan → Result Scan) → Result Scan
after_page true cursor s next = ok s
after_page false none s next = ok s
after_page false (some c) s next = next c s

module _ (S : Services) where
  open S use {json}

  -- A node answers the request for each page as it likes; the pages are numbered from 0.
  abbrev pub Node : Type 0
  Node = ℕ → Value S → Result (Value S)

  unfoldable pub events_params : ℕ → Option Text → Value S
  events_params start (some c) = json.object (
      ("filters", upgrade_event_filter S)
      ∷ (
        "pagination",
        json.object (("cursor", json.string c) ∷ ("limit", json.number page_limit) ∷ []),
      )
      ∷ [])
  events_params start none = json.object (
      ("startLedger", json.number start)
      ∷ ("filters", upgrade_event_filter S)
      ∷ ("pagination", json.object (("limit", json.number page_limit) ∷ []))
      ∷ [])

  unfoldable pub events_request : ℕ → Option Text → Value S
  events_request start cursor = json.object (
      ("jsonrpc", json.string (text "2.0"))
      ∷ ("id", json.number 1)
      ∷ ("method", json.string (text "getEvents"))
      ∷ ("params", events_params start cursor)
      ∷ [])

  unfoldable pub page_events : Value S → List (Value S)
  page_events result = unwrap_or (and_then (json.get result "events") json.as_array) []

  unfoldable pub page_cursor : Value S → Option Text
  page_cursor result = and_then (json.get result "cursor") json.as_str

  module _ (last : ℕ) (contract_hex : Text) where
    -- One event that is new; the flag tells that it lies past the window.
    unfoldable pub scan_event : Value S → Text → Scan → Result (Scan × Bool)
    scan_event raw id s = do
      ev ← decode_upgrade_event S raw
      let s' = record s { seen = id ∷ s.seen }
      ok (
          if ltb last ev.ledger
          then (s', true)
          else if ev.contract == contract_hex
          then (record s' { events = s.events ++ (ev ∷ []) }, false)
          else (s', false))

    -- `continue` on an event without an id or with one that is known; else the event is scanned,
    -- and the first one past the window ends the page.
    unfoldable pub next_event :
        Bool → Value S → Text → Scan → (Scan → Result (Scan × Bool)) → Result (Scan × Bool)
    unfolding stop_at
    next_event true raw id s next = next s
    next_event false raw id s next = do
      (s', past_end) ← scan_event raw id s
      stop_at past_end s' next

    -- The loop over the events of one page.
    unfoldable pub scan_page : List (Value S) → Scan → Result (Scan × Bool)
    unfolding next_event
    scan_page [] s = ok (s, false)
    scan_page (raw ∷ rest) s =
        let id = text_field S raw "id" in
        next_event (id == [] || contains id s.seen) raw id s (scan_page rest)

    -- An empty page ends the scan; else the page is scanned, and its cursor leads on.
    unfoldable pub read_page :
        List (Value S) → Option Text → Scan → (Text → Scan → Result Scan) → Result Scan
    unfolding scan_page after_page
    read_page [] cursor s next = ok s
    read_page (raw ∷ rest) cursor s next = do
      (s', past_end) ← scan_page (raw ∷ rest) s
      after_page past_end cursor s' next

    module _ (node : Node) (start : ℕ) where
      -- The loop over the pages; the first argument is how many more pages are allowed.
      unfoldable pub scan_pages : ℕ → ℕ → Option Text → Scan → Result Scan
      unfolding read_page
      scan_pages zero page cursor s =
          bail "scan exceeded {MAX_PAGES} pages — is the node's cursor making progress?" []
      scan_pages (suc left) page cursor s = do
        resp ← node page (events_request start cursor)
        check_error S (text "unknown error") resp
        result ← ok_or (json.get resp "result") "RPC response has no result: {resp}" []
        read_page (page_events result) (page_cursor result) s
            (λ c. scan_pages left (page + 1) (some c))

      unfoldable pub scan_upgrade_events : Result (List UpgradeEvent)
      unfolding sort_by_ledger
      scan_upgrade_events = do
        s ← scan_pages max_pages 0 none empty_scan
        ok (sort_by_ledger s.events)
