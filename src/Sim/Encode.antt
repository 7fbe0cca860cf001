-- ===== src/Sim/Encode.antt =====
-- The XDR encoders of src/sim.rs.
use sorseal.Base.{
  ◌-◌, ◌%◌, ◌++◌, not, [], ◌∷◌, if◌then◌else◌, length, Text, Bytes, Result, ok, ◌>>=◌, bail, txt,
  replicate,
}
use sorseal.Interfaces.Encodings.{Base64}
use sorseal.Digest.Hex.{parse_pairs}
use sorseal.Onchain.ContractId.{is_hex_id}
use sorseal.Onchain.Cursor.{to_be_bytes}
use sorseal.Onchain.Tags.{
  contract_data, sc_address_type_contract, scv_ledger_key_contract_instance, durability_persistent,
  scv_contract_instance, executable_wasm, scv_vec, scv_optional_present, scv_symbol, scv_bytes,
}
use sorseal.Audit.Event.{wasm_kind}

-- The bytes of `symbol_scval_b64` before base64; the name is ASCII.
unfoldable pub symbol_scval : Bytes → Bytes
symbol_scval name =
    to_be_bytes scv_symbol
    ++ (to_be_bytes (length name) ++ (name ++ replicate ((4 - length name % 4) % 4) 0))

unfoldable pub symbol_scval_b64 : Base64 → Bytes → Text
symbol_scval_b64 B name = B.encode (symbol_scval name)

unfoldable pub hex_bytes : Text → Result Bytes
hex_bytes s =
    if not (is_hex_id s)
    then bail "expected a 64-char hex wasm hash, got '{}'" (txt s ∷ [])
    else ok (parse_pairs s)

unfoldable pub wasm_scval : Bytes → Bytes
wasm_scval hash =
    to_be_bytes scv_vec
    ++ (to_be_bytes scv_optional_present
        ++ (to_be_bytes 2
            ++ (to_be_bytes scv_symbol
                ++ (to_be_bytes 4
                    ++ (wasm_kind
                        ++ (to_be_bytes scv_bytes ++ (to_be_bytes 32 ++ (hash ++ []))))))))

unfoldable pub wasm_scval_b64 : Base64 → Text → Result Text
wasm_scval_b64 B wasm_hex = do hash ← hex_bytes wasm_hex; ok (B.encode (wasm_scval hash))

unfoldable pub contract_instance_entry : Bytes → Bytes → Bytes
contract_instance_entry id wasm =
    to_be_bytes contract_data
    ++ (to_be_bytes 0
        ++ (to_be_bytes sc_address_type_contract
            ++ (id
                ++ (to_be_bytes scv_ledger_key_contract_instance
                    ++ (to_be_bytes durability_persistent
                        ++ (to_be_bytes scv_contract_instance
                            ++ (to_be_bytes executable_wasm ++ (wasm ++ []))))))))

unfoldable pub contract_instance_entry_b64 : Base64 → Text → Text → Result Text
contract_instance_entry_b64 B id_hex wasm_hex = do
  id ← hex_bytes id_hex
  wasm ← hex_bytes wasm_hex
  ok (B.encode (contract_instance_entry id wasm))
