-- ===== src/Audit/Window.antt =====
-- `parse_ledger_range` and `rpc_ledger_window` of src/audit.rs.
pub mod Printed
pub mod Digits
use Prim.Native.String.{String}
use sorseal.Base.{
  ℕ, ◌+◌, ◌-◌, ◌*◌, ◌%◌, ◌^◌, ◌++◌, ◌&&◌, Bool, true, false, List, [], ◌∷◌, Option, none, some,
  if◌then◌else◌, ltb, leb, nat_beq, text, Text, trim, Result, ok, err, panic, ◌>>=◌, bail, ok_or,
  and_then, unwrap_or, txt,
}
use sorseal.Interfaces.Services.{Services, Value, Transport}
use sorseal.Analyze.Suppress.{strip_prefix}
use sorseal.Audit.Event.{upgrade_event_filter}

-- Puts a character in front of the first part.
abbrev pub before : ℕ → Option (Text × Text) → Option (Text × Text)
before c none = none
before c (some (s, t)) = some (c ∷ s, t)

-- At a separator, and at any other character, whose rest has been split.
abbrev pub split_at : ℕ → Option Text → Option (Text × Text) → Option (Text × Text)
split_at c (some rest) later = some ([], rest)
split_at c none later = before c later

-- `str::split_once`, for a separator that is not empty.
unfoldable pub split_once : Text → Text → Option (Text × Text)
split_once sep [] = none
split_once sep (c ∷ s) = split_at c (strip_prefix sep (c ∷ s)) (split_once sep s)

-- The digits behind a number that is read already; a number past 32 bits is an error.
unfoldable pub parse_from : ℕ → Text → Option ℕ
parse_from acc [] = some acc
parse_from acc (c ∷ s) =
    let more = acc * 10 + (c - b'0') in
    let rest = parse_from more s in
    if leb b'0' c && (leb c b'9' && ltb more (2 ^ 32)) then rest else none

-- `str::parse::<u32>`.
unfoldable pub parse_u32 : Text → Option ℕ
parse_u32 [] = none
parse_u32 (c ∷ []) = parse_from 0 (c ∷ [])
parse_u32 (c ∷ d ∷ s) = parse_from 0 (if nat_beq c b'+' then d ∷ s else c ∷ d ∷ s)

unfoldable pub parse_ledger_range : Text → Option (ℕ × ℕ)
parse_ledger_range message = and_then (split_once (text "ledger range: ") message) (λ r.
    and_then (split_once (text " - ") r.1) (λ p.
      and_then (parse_u32 (trim p.0)) (λ a. and_then (parse_u32 (trim p.1)) (λ b. some (a, b)))))

module _ (S : Services) where
  open S use {json}

  unfoldable pub window_request : Value S
  window_request = json.object (
      ("jsonrpc", json.string (text "2.0"))
      ∷ ("id", json.number 1)
      ∷ ("method", json.string (text "getEvents"))
      ∷ (
        "params",
        json.object (
            ("startLedger", json.number 1)
            ∷ ("filters", upgrade_event_filter S)
            ∷ ("pagination", json.object (("limit", json.number 1) ∷ []))
            ∷ []),
      )
      ∷ [])

  -- The range that a message names, and the message as an error where it names none.
  abbrev pub range_or : Text → Option (ℕ × ℕ) → Result (ℕ × ℕ)
  range_or message (some range) = ok range
  range_or message none = bail "Soroban RPC error: {msg}" (txt message ∷ [])

  unfoldable pub error_message : Value S → Text
  error_message e = unwrap_or (and_then (json.get e "message") json.as_str) (text "unknown error")

  unfoldable pub window_of_error : Value S → Result (ℕ × ℕ)
  window_of_error e = range_or (error_message e) (parse_ledger_range (error_message e))

  -- The range that a result names; `as u32` takes the low 32 bits.
  unfoldable pub window_of_result : Value S → Result (ℕ × ℕ)
  window_of_result resp = do
    result ← ok_or (json.get resp "result") "RPC response has no result: {resp}" []
    latest ←
        ok_or (and_then (json.get result "latestLedger") json.as_u64)
          "RPC response has no latestLedger: {resp}" []
    let oldest =
        unwrap_or
          (and_then (and_then (json.get result "oldestLedger") json.as_u64)
            (λ v. some (v % 2 ^ 32)))
          1
    ok (oldest, latest % 2 ^ 32)

  unfoldable pub window_of : Value S → Option (Value S) → Result (ℕ × ℕ)
  window_of resp (some e) = window_of_error e
  window_of resp none = window_of_result resp

  unfoldable pub rpc_ledger_window : Transport S → Result (ℕ × ℕ)
  rpc_ledger_window post = do resp ← post window_request; window_of resp (json.get resp "error")
