-- ===== src/Sim/Ledger.antt =====
-- `MockLedger`, `MockTransport` and `ledger_from_provenance_with_current` of src/sim.rs.
pub mod Chain
pub mod Events
pub mod Upgrades
pub mod Answered
pub mod Built
use sorseal.Base.{
  ℕ, zero, suc, ◌+◌, ◌-◌, ◌*◌, ◌/◌, ◌%◌, ◌^◌, ◌++◌, min, Bool, true, false, not, List, [], ◌∷◌, map,
  Option, none, some, if◌then◌else◌, ltb, leb, nat_beq, ◌==◌, text_eq, length, take, replicate,
  text, Text, Result, ok, err, panic, ◌>>=◌, ◌>>◌, bail, bail_if, with_context, txt, and_then,
  unwrap_or,
}
use sorseal.Clock.{digits, padded}
use sorseal.Digest.Hex.{hex_digit}
use sorseal.Interfaces.Services.{Services, Value, Transport}
use sorseal.Provenance.{ArtifactProvenance, Provenance}
use sorseal.Onchain.ContractId.{normalize_contract_id}
use sorseal.Audit.Event.{executable_update}
use sorseal.Audit.Lineage.{is_nil}
use sorseal.Sim.Encode.{symbol_scval_b64, wasm_scval_b64, contract_instance_entry_b64, hex_bytes}

pub record MockLedger (S : Services) : Type 0 where
  pub contract_hex : Text
  pub current_entry_b64 : Text
  pub events : List (Value S)
  pub oldest_ledger : ℕ
  pub latest_ledger : ℕ

-- The hex digits of a number, at most `fuel` of them: 16 are enough for a usize of 64 bits.
unfoldable pub hex_number : ℕ → ℕ → Text
hex_number zero n = []
hex_number (suc fuel) n =
    let higher = hex_number fuel (n / 16) in
    if ltb n 16 then hex_digit n ∷ [] else higher ++ hex_digit (n % 16) ∷ []

-- `{i:064x}`.
unfoldable pub tx_hash_of : ℕ → Text
tx_hash_of i = let s = hex_number 16 i in replicate (64 - length s) b'0' ++ s

-- The ledger of an upgrade, in 32 bits.
unfoldable pub ledger_of : ℕ → ℕ
ledger_of i = (1000 + i % 2 ^ 32 * 1000 % 2 ^ 32) % 2 ^ 32

unfoldable pub closed_at_of : ℕ → Text
closed_at_of i =
    text "2026-09-" ++ (padded 2 (min (i % 256) 28) ++ (text "T00:00:" ++ (padded 2 0 ++ text "Z")))

-- `{ledger:020}-0000000000`.
unfoldable pub event_id_of : ℕ → Text
event_id_of ledger = padded 20 ledger ++ text "-0000000000"

unfoldable pub last_or_empty : List Text → Text
last_or_empty [] = []
last_or_empty (x ∷ []) = x
last_or_empty (x ∷ y ∷ l) = last_or_empty (y ∷ l)

-- The hashes that were deployed: the first artifact's, and that of each upgrade.
unfoldable pub upgrade_chain : Provenance → Option ℕ → List Text
upgrade_chain p upgrades =
    let count = unwrap_or upgrades (length p.artifacts - 1) in
    map (λ (a : ArtifactProvenance). a.wasm_sha256) (take ((count + 1) % 2 ^ 64) p.artifacts)

module _ (S : Services) where
  open S use {json, base64, strkey}

  -- The answer's id is the request's, or null.
  unfoldable pub id_of : Value S → Value S
  id_of body = unwrap_or (json.get body "id") json.null

  -- All events for a start in or before the oldest ledger, which is also the start where none is given.
  unfoldable pub events_response : MockLedger S → Value S → Value S
  events_response l body =
      let start =
        unwrap_or
          (and_then (and_then (json.get body "params") (λ p. json.get p "startLedger")) json.as_u64)
          l.oldest_ledger in
      let events = if leb start l.oldest_ledger then l.events else [] in
      json.object (
        ("jsonrpc", json.string (text "2.0"))
        ∷ ("id", id_of body)
        ∷ (
          "result",
          json.object (
              ("latestLedger", json.number l.latest_ledger)
              ∷ ("oldestLedger", json.number l.oldest_ledger)
              ∷ ("events", json.array events)
              ∷ ("cursor", json.null)
              ∷ []),
        )
        ∷ [])

  unfoldable pub entries_response : MockLedger S → Value S → Value S
  entries_response l body = json.object (
      ("jsonrpc", json.string (text "2.0"))
      ∷ ("id", id_of body)
      ∷ (
        "result",
        json.object (
            (
              "entries",
              json.array (json.object (("xdr", json.string l.current_entry_b64) ∷ []) ∷ []),
            )
            ∷ []),
      )
      ∷ [])

  -- `post` of the MockTransport.
  unfoldable pub mock_post : MockLedger S → Transport S
  mock_post l body =
      let method = unwrap_or (and_then (json.get body "method") json.as_str) [] in
      if method == text "getLedgerEntries"
      then ok (entries_response l body)
      else if method == text "getEvents"
      then ok (events_response l body)
      else bail "mock transport has no method '{other}'" (txt method ∷ [])

  -- Upgrade number `i` of the chain, from its two topics.
  unfoldable pub event_object : Text → ℕ → Text → Text → Value S
  event_object contract_strkey i old_topic new_topic = json.object (
      ("type", json.string (text "system"))
      ∷ ("ledger", json.number (ledger_of i))
      ∷ ("ledgerClosedAt", json.string (closed_at_of i))
      ∷ ("contractId", json.string contract_strkey)
      ∷ ("id", json.string (event_id_of (ledger_of i)))
      ∷ ("operationIndex", json.number 0)
      ∷ ("transactionIndex", json.number 0)
      ∷ ("txHash", json.string (tx_hash_of i))
      ∷ ("inSuccessfulContractCall", json.boolean true)
      ∷ (
        "topic",
        json.array (
            json.string (symbol_scval_b64 base64 executable_update)
            ∷ json.string old_topic
            ∷ json.string new_topic
            ∷ []),
      )
      ∷ ("value", json.string [])
      ∷ [])

  unfoldable pub upgrade_event : Text → ℕ → Text → Text → Result (Value S)
  upgrade_event contract_strkey i old new = do
    old_topic ← wasm_scval_b64 base64 old
    new_topic ← wasm_scval_b64 base64 new
    ok (event_object contract_strkey i old_topic new_topic)

  -- The loop over the neighbours of the chain.
  unfoldable pub upgrade_events : Text → ℕ → List Text → Result (List (Value S))
  upgrade_events contract_strkey i (old ∷ new ∷ rest) = do
    event ← upgrade_event contract_strkey i old new
    later ← upgrade_events contract_strkey (i + 1) (new ∷ rest)
    ok (event ∷ later)
  upgrade_events contract_strkey i l = ok []

  unfoldable pub ledger_from_provenance_with_current :
      Provenance → Text → Option ℕ → Option Text → Result (MockLedger S)
  ledger_from_provenance_with_current p contract_id upgrades current_wasm_override = do
    contract_hex ← normalize_contract_id strkey contract_id
    bail_if (is_nil p.artifacts) "provenance has no artifacts to simulate" []
    let chain = upgrade_chain p upgrades
    let current_wasm = unwrap_or current_wasm_override (last_or_empty chain)
    id ← with_context (hex_bytes contract_hex) "invalid simulated contract id: {e}" []
    events ← upgrade_events (strkey.to_string id) 1 chain
    current_entry_b64 ← contract_instance_entry_b64 base64 contract_hex current_wasm
    let rounds = if ltb (length chain) 1 then 1 else length chain
    ok (record {
      contract_hex = contract_hex;
      current_entry_b64 = current_entry_b64;
      events = events;
      oldest_ledger = 900;
      latest_ledger = (1000 + rounds % 2 ^ 32 * 1000 % 2 ^ 32) % 2 ^ 32;
    })

  unfoldable pub ledger_from_provenance : Provenance → Text → Option ℕ → Result (MockLedger S)
  ledger_from_provenance p contract_id upgrades =
      ledger_from_provenance_with_current p contract_id upgrades none
