-- ===== src/Tests/Deployed.antt =====
-- The on-chain check against a node that serves a simulated entry.
use sorseal.Base.{
  ◌≡◌, refl, true, List, [], ◌∷◌, Option, none, some, ◌==◌, text_eq, Text, Bytes,
  to_ascii_lowercase, Result, ok,
}
use sorseal.Interfaces.Services.{Transport}
use sorseal.Onchain.ContractId.{hex_to_bytes, normalize_contract_id}
use sorseal.Onchain.Verify.{choose_artifact, entry_of_response, verify_contract}
use sorseal.Sim.Encode.{contract_instance_entry, contract_instance_entry_b64}
use sorseal.Sim.Deployed.{Deploys, verify_contract-Deploys}
use sorseal.Tests.Concrete.{
  JsonValue, an_object, an_array, a_string, no_fields, field, no_elements, element, plain_base64,
  plain_base64_laws, no_strkeys, plain_services,
}
use sorseal.Tests.Ids.{id_bytes, lower_id}
use sorseal.Tests.Records.{sealed_artifact, sealed_record}

abbrev simulated : Text
simulated = contract_instance_entry id_bytes id_bytes

abbrev the_response : JsonValue
the_response = an_object (
    field "result"
      (an_object (
        field "entries"
          (an_array (element (an_object (field "xdr" (a_string simulated) no_fields)) no_elements))
          no_fields))
      no_fields)

abbrev the_post : Transport plain_services
the_post v = ok the_response

first_chosen : choose_artifact none sealed_record ≡ ok sealed_artifact
unfolding choose_artifact
first_chosen = refl

id_normal : normalize_contract_id no_strkeys lower_id ≡ ok lower_id
unfolding normalize_contract_id sorseal.Base.byte_len sorseal.Base.is_ascii_hexdigit
    to_ascii_lowercase
id_normal = refl

id_read : hex_to_bytes lower_id ≡ ok id_bytes
unfolding hex_to_bytes sorseal.Base.byte_len sorseal.Base.is_ascii_hexdigit
    sorseal.Digest.Hex.parse_pairs
id_read = refl

entry_found : entry_of_response plain_services lower_id the_response ≡ ok simulated
unfolding entry_of_response
entry_found = refl

entry_built : contract_instance_entry_b64 plain_base64 lower_id lower_id ≡ ok simulated
unfolding contract_instance_entry_b64 sorseal.Sim.Encode.hex_bytes
    sorseal.Onchain.ContractId.is_hex_id sorseal.Base.byte_len sorseal.Base.is_ascii_hexdigit
    sorseal.Digest.Hex.parse_pairs
entry_built = refl

it-Deploys : Deploys plain_services the_post lower_id lower_id simulated
it-Deploys = record {
  id = id_bytes;
  normal = id_normal;
  id_is = id_read;
  response = the_response;
  gives = refl;
  no_error = refl;
  entry_is = entry_found;
}

verify_contract-Deploys_example :
    verify_contract plain_services the_post sealed_record lower_id none
    ≡ ok (record {
      contract_id = lower_id;
      deployed_wasm_sha256 = to_ascii_lowercase lower_id;
      sealed_wasm_sha256 = to_ascii_lowercase (sealed_artifact.wasm_sha256);
      match_ = to_ascii_lowercase lower_id == to_ascii_lowercase (sealed_artifact.wasm_sha256);
    })
verify_contract-Deploys_example =
    verify_contract-Deploys plain_services plain_base64_laws the_post sealed_record lower_id none
      sealed_artifact lower_id lower_id simulated first_chosen it-Deploys entry_built
