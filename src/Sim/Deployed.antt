-- ===== src/Sim/Deployed.antt =====
-- The on-chain check of src/onchain.rs on the ledger entry that src/sim.rs builds.
use sorseal.Base.{◌≡◌, refl, ap, Option, none, ◌==◌, text_eq, Text, Bytes, to_ascii_lowercase, ok}
use sorseal.Interfaces.Encodings.{Base64Laws}
use sorseal.Interfaces.Services.{Services, Value, Transport}
use sorseal.Provenance.{ArtifactProvenance, Provenance}
use sorseal.Onchain.ContractId.{hex_to_bytes, normalize_contract_id}
use sorseal.Onchain.Verify.{
  choose_artifact, entries_request, check_error, entry_of_response, fetch_deployed_wasm_hash,
  verify_contract,
}
use sorseal.Sim.Encode.{contract_instance_entry_b64}
use sorseal.Sim.RoundTrip.{wasm_hash_from_entry-contract_instance_entry_b64}

-- The node answers the request for the contract's entry by this entry.
pub record Deploys (S : Services) (post : Transport S) (contract_id hex_id entry : Text)
    : Type 0 where
  pub id : Bytes
  pub normal : normalize_contract_id S.strkey contract_id ≡ ok hex_id
  pub id_is : hex_to_bytes hex_id ≡ ok id
  pub response : Value S
  pub gives : post (entries_request S id) ≡ ok response
  pub no_error : S.json.get response "error" ≡ none
  pub entry_is : entry_of_response S contract_id response ≡ ok entry

module _ (S : Services) (laws : Base64Laws S.base64) (post : Transport S) where
  pub fetch_deployed_wasm_hash-Deploys :
      (contract_id hex_id wasm_hex entry : Text)
      → Deploys S post contract_id hex_id entry
      → contract_instance_entry_b64 S.base64 hex_id wasm_hex ≡ ok entry
      → fetch_deployed_wasm_hash S post contract_id ≡ ok (to_ascii_lowercase wasm_hex)
  unfolding fetch_deployed_wasm_hash check_error
  fetch_deployed_wasm_hash-Deploys contract_id hex_id wasm_hex entry d built =
      let (wasm, read, lower) =
        wasm_hash_from_entry-contract_instance_entry_b64 S.base64 laws hex_id wasm_hex built in
      rw (d.normal) (
        rw (d.id_is)
          (rw (d.gives) (rw (d.no_error, check_error) (rw (d.entry_is) (rw read (ap ok lower))))))

-- Where base64 decodes what it encodes, and the node answers by the entry that the simulator builds for a wasm hash:
-- `verify_contract` reports that hash and the digest of the chosen artifact, both in lower case, and they match
-- exactly when they are the same.
pub verify_contract-Deploys :
    (S : Services) (laws : Base64Laws S.base64) (post : Transport S) (p : Provenance)
    (contract_id : Text) (artifact : Option Text) (art : ArtifactProvenance)
    (hex_id wasm_hex entry : Text)
    → choose_artifact artifact p ≡ ok art
    → Deploys S post contract_id hex_id entry
    → contract_instance_entry_b64 S.base64 hex_id wasm_hex ≡ ok entry
    → verify_contract S post p contract_id artifact
      ≡ ok (record {
        contract_id = hex_id;
        deployed_wasm_sha256 = to_ascii_lowercase wasm_hex;
        sealed_wasm_sha256 = to_ascii_lowercase art.wasm_sha256;
        match_ = to_ascii_lowercase wasm_hex == to_ascii_lowercase art.wasm_sha256;
      })
unfolding verify_contract
verify_contract-Deploys S laws post p contract_id artifact art hex_id wasm_hex entry chosen d
      built =
    rw chosen (
      rw (fetch_deployed_wasm_hash-Deploys S laws post contract_id hex_id wasm_hex entry d built)
        (rw (d.normal) refl))
