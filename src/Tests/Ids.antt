-- ===== src/Tests/Ids.antt =====
-- Contract ids, hex digests and XDR entries on concrete inputs.
use sorseal.Base.{
  ℕ, ◌≡◌, refl, ◌==◌, List, [], ◌∷◌, some, none, All, length, replicate, text, text_eq, Text, Bytes,
  to_ascii_lowercase, Result, ok, arith, ◌<◌, ◌^◌,
}
use sorseal.Digest.Hex.{hex, IsByte}
use sorseal.Onchain.ContractId.{hex_to_bytes, normalize_contract_id}
use sorseal.Onchain.ContractId.HexId.{hex_to_bytes-hex, hex-hex_to_bytes}
use sorseal.Onchain.ContractId.Normal.{IsNormalId, HoldsIds, normalize_contract_id-IsNormalId}
use sorseal.Onchain.Entry.{wasm_hash_from_entry}
use sorseal.Audit.Event.{is_executable_update, decode_wasm_executable}
use sorseal.Audit.NoPanic.{Returns, wasm_hash_from_entry-Returns}
use sorseal.Sim.Encode.{
  contract_instance_entry, symbol_scval_b64, wasm_scval, wasm_scval_b64,
  contract_instance_entry_b64,
}
use sorseal.Sim.RoundTrip.{
  wasm_hash_from_entry-contract_instance_entry_b64, decode_wasm_executable-wasm_scval_b64,
}
use sorseal.Tests.Concrete.{plain_base64, plain_base64_laws, no_strkeys}

abbrev upper_id : Text
upper_id = replicate 64 65

abbrev pub id_bytes : Bytes
id_bytes = replicate 32 170

id_bytes-IsByte : All IsByte id_bytes
id_bytes-IsByte = ground arith

hex_to_bytes-hex_example : hex_to_bytes (hex id_bytes) ≡ ok id_bytes
hex_to_bytes-hex_example = hex_to_bytes-hex id_bytes refl id_bytes-IsByte

read_upper_id : hex_to_bytes upper_id ≡ ok id_bytes
unfolding hex_to_bytes sorseal.Base.byte_len sorseal.Base.is_ascii_hexdigit
    sorseal.Digest.Hex.parse_pairs
read_upper_id = refl

hex-hex_to_bytes_example :
    (length id_bytes ≡ 32) × All IsByte id_bytes × (hex id_bytes ≡ to_ascii_lowercase upper_id)
hex-hex_to_bytes_example = hex-hex_to_bytes upper_id {bs = id_bytes} read_upper_id

no_strkeys-HoldsIds : HoldsIds no_strkeys
no_strkeys-HoldsIds s raw h = cc

abbrev padded_id : Text
padded_id = 32 ∷ 48 ∷ 120 ∷ upper_id

abbrev pub lower_id : Text
lower_id = replicate 64 97

padded_id_normal : normalize_contract_id no_strkeys padded_id ≡ ok lower_id
unfolding normalize_contract_id sorseal.Base.byte_len sorseal.Base.is_ascii_hexdigit
    to_ascii_lowercase
padded_id_normal = refl

normalize_contract_id-IsNormalId_example :
    IsNormalId lower_id × (normalize_contract_id no_strkeys lower_id ≡ ok lower_id)
normalize_contract_id-IsNormalId_example =
    normalize_contract_id-IsNormalId no_strkeys no_strkeys-HoldsIds padded_id {s = lower_id}
      padded_id_normal

wasm_hash_from_entry-Returns_example :
    Returns (wasm_hash_from_entry plain_base64 lower_id)
    × Returns (decode_wasm_executable plain_base64 lower_id)
    × Returns (is_executable_update plain_base64 lower_id)
wasm_hash_from_entry-Returns_example = wasm_hash_from_entry-Returns plain_base64 lower_id

-- The entry and the topic that the simulator builds for the id.
abbrev the_entry : Text
the_entry = contract_instance_entry id_bytes id_bytes

built_entry : contract_instance_entry_b64 plain_base64 upper_id upper_id ≡ ok the_entry
unfolding contract_instance_entry_b64 sorseal.Sim.Encode.hex_bytes
    sorseal.Onchain.ContractId.is_hex_id sorseal.Base.byte_len sorseal.Base.is_ascii_hexdigit
    sorseal.Digest.Hex.parse_pairs
built_entry = refl

wasm_hash_from_entry-contract_instance_entry_b64_example :
    (wasm : Bytes) × (wasm_hash_from_entry plain_base64 the_entry ≡ ok (some wasm))
    × (hex wasm ≡ to_ascii_lowercase upper_id)
wasm_hash_from_entry-contract_instance_entry_b64_example =
    wasm_hash_from_entry-contract_instance_entry_b64 plain_base64 plain_base64_laws upper_id
      upper_id {entry = the_entry} built_entry

built_topic : wasm_scval_b64 plain_base64 upper_id ≡ ok (wasm_scval id_bytes)
unfolding wasm_scval_b64 sorseal.Sim.Encode.hex_bytes sorseal.Onchain.ContractId.is_hex_id
    sorseal.Base.byte_len sorseal.Base.is_ascii_hexdigit sorseal.Digest.Hex.parse_pairs
built_topic = refl

decode_wasm_executable-wasm_scval_b64_example :
    decode_wasm_executable plain_base64 (wasm_scval id_bytes) ≡ ok (to_ascii_lowercase upper_id)
decode_wasm_executable-wasm_scval_b64_example =
    decode_wasm_executable-wasm_scval_b64 plain_base64 plain_base64_laws upper_id
      {topic = wasm_scval id_bytes} built_topic
