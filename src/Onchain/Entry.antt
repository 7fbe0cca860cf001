-- ===== src/Onchain/Entry.antt =====
-- `contract_instance_key` and `wasm_hash_from_entry` of src/onchain.rs.
use sorseal.Base.{
  ℕ, [], ◌∷◌, ◌++◌, Option, none, some, if◌then◌else◌, nat_beq, Text, Bytes, Result, ok, ◌>>=◌,
  bail, ok_or, num,
}
use sorseal.Interfaces.Encodings.{Base64}
use sorseal.Onchain.Cursor.{Cursor, new, read_u32, array32, take_bytes, expect_tag, to_be_bytes}
use sorseal.Onchain.Tags.{
  contract_data, sc_address_type_contract, scv_ledger_key_contract_instance, durability_persistent,
  scv_contract_instance, executable_wasm, executable_stellar_asset,
}

-- The five copies into the 48-byte array, end to end.
unfoldable pub contract_instance_key : Bytes → Bytes
contract_instance_key id =
    to_be_bytes contract_data
    ++ (to_be_bytes sc_address_type_contract
        ++ (id
            ++ (to_be_bytes scv_ledger_key_contract_instance ++ to_be_bytes durability_persistent)))

-- The `match exec` at the end, on a cursor behind the executable's type.
unfoldable pub read_executable : ℕ → Cursor → Result (Option Bytes)
read_executable exec cur =
    if nat_beq exec executable_wasm
    then (do (taken, _) ← take_bytes cur 32 "wasm hash"; wasm ← array32 taken; ok (some wasm))
    else if nat_beq exec executable_stellar_asset
    then ok none
    else bail "unexpected ContractExecutable type {other}" (num exec ∷ [])

-- `wasm_hash_from_entry` on the decoded bytes.
unfoldable pub wasm_hash_from_bytes : Bytes → Result (Option Bytes)
unfolding new
wasm_hash_from_bytes bytes = do
  cur ← expect_tag (new bytes) contract_data "LedgerEntry type"
  (_, cur) ← read_u32 cur "ExtensionPoint"
  cur ← expect_tag cur sc_address_type_contract "SCAddress type"
  (_, cur) ← take_bytes cur 32 "SCAddress contract id"
  cur ← expect_tag cur scv_ledger_key_contract_instance "SCVal key type"
  cur ← expect_tag cur durability_persistent "durability"
  cur ← expect_tag cur scv_contract_instance "SCVal val type"
  (exec, cur) ← read_u32 cur "ContractExecutable type"
  read_executable exec cur

unfoldable pub wasm_hash_from_entry : Base64 → Text → Result (Option Bytes)
wasm_hash_from_entry B entry_b64 = do
  bytes ← ok_or (B.decode entry_b64) "ledger entry is not valid base64" []
  wasm_hash_from_bytes bytes
