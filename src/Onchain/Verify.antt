-- ===== src/Onchain/Verify.antt =====
-- `fetch_deployed_wasm_hash` and `verify_contract` of src/onchain.rs. A message that prints a JSON
-- response is kept without it.
use sorseal.Base.{
  Bool, [], ◌∷◌, Option, none, some, ◌==◌, text_eq, find, text, Text, Bytes, to_ascii_lowercase,
  Result, ok, ◌>>=◌, ◌>>◌, bail, ok_or, txt, and_then, unwrap_or, head?,
}
use sorseal.Interfaces.Services.{Services, Value, Transport}
use sorseal.Digest.Hex.{hex}
use sorseal.Provenance.{ArtifactProvenance, Provenance}
use sorseal.Onchain.ContractId.{hex_to_bytes, normalize_contract_id}
use sorseal.Onchain.Entry.{contract_instance_key, wasm_hash_from_entry}

pub record OnChainCheck : Type 0 where
  pub contract_id : Text
  pub deployed_wasm_sha256 : Text
  pub sealed_wasm_sha256 : Text
  pub match_ : Bool

-- The artifact that is asked for by its id, or the first.
unfoldable pub choose_artifact : Option Text → Provenance → Result ArtifactProvenance
choose_artifact (some id) p =
    ok_or (find (λ (a : ArtifactProvenance). a.id == id) p.artifacts)
      "provenance has no artifact with id '{id}'" (txt id ∷ [])
choose_artifact none p =
    ok_or (head? p.artifacts) "provenance has no artifacts to check on-chain" []

module _ (S : Services) where
  open S use {json, base64, strkey}

  unfoldable pub entries_request : Bytes → Value S
  entries_request id = json.object (
      ("jsonrpc", json.string (text "2.0"))
      ∷ ("id", json.number 1)
      ∷ ("method", json.string (text "getLedgerEntries"))
      ∷ (
        "params",
        json.object (
            ("keys", json.array (json.string (base64.encode (contract_instance_key id)) ∷ []))
            ∷ []),
      )
      ∷ [])

  -- `bail!` with the message of the response's error, where it has one.
  unfoldable pub check_error : Text → Value S → Result (Unit {0})
  check_error unknown response = elim (json.get response "error") [
    | none ↦ ok tt
    | some e ↦
        bail "Soroban RPC error: {msg}"
          (txt (unwrap_or (and_then (json.get e "message") json.as_str) unknown) ∷ [])
  ]

  unfoldable pub entry_of_response : Text → Value S → Result Text
  entry_of_response contract_id response = do
    entries ←
        ok_or
          (and_then (and_then (json.get response "result") (λ r. json.get r "entries"))
            json.as_array)
          "RPC response has no result.entries: {parsed}" []
    first ←
        ok_or (head? entries) "no contract instance found on-chain for '{contract_id}'"
          (txt contract_id ∷ [])
    ok_or (and_then (json.get first "xdr") json.as_str)
        "RPC response has no result.entries[0].xdr: {parsed}" []

  unfoldable pub fetch_deployed_wasm_hash : Transport S → Text → Result Text
  unfolding check_error entry_of_response
  fetch_deployed_wasm_hash post contract_id = do
    hex_id ← normalize_contract_id strkey contract_id
    id ← hex_to_bytes hex_id
    parsed ← post (entries_request id)
    check_error (text "unknown") parsed
    entry_b64 ← entry_of_response contract_id parsed
    found ← wasm_hash_from_entry base64 entry_b64
    wasm ←
        ok_or found "contract '{contract_id}' is a Stellar Asset Contract with no wasm on-chain"
          (txt contract_id ∷ [])
    ok (hex wasm)

  unfoldable pub verify_contract :
      Transport S → Provenance → Text → Option Text → Result OnChainCheck
  unfolding choose_artifact
  verify_contract post provenance contract_id artifact = do
    art ← choose_artifact artifact provenance
    deployed ← fetch_deployed_wasm_hash post contract_id
    normalized ← normalize_contract_id strkey contract_id
    let sealed = to_ascii_lowercase art.wasm_sha256
    ok (record {
      contract_id = normalized;
      deployed_wasm_sha256 = deployed;
      sealed_wasm_sha256 = sealed;
      match_ = deployed == sealed;
    })
