-- ===== src/Onchain/Tags.antt =====
-- The XDR discriminants of src/onchain.rs; src/sim.rs repeats them with the same values.
use sorseal.Base.{ℕ}

abbrev pub contract_data : ℕ
contract_data = 6

abbrev pub sc_address_type_contract : ℕ
sc_address_type_contract = 1

abbrev pub scv_ledger_key_contract_instance : ℕ
scv_ledger_key_contract_instance = 20

abbrev pub durability_persistent : ℕ
durability_persistent = 1

abbrev pub scv_contract_instance : ℕ
scv_contract_instance = 19

abbrev pub executable_wasm : ℕ
executable_wasm = 0

abbrev pub executable_stellar_asset : ℕ
executable_stellar_asset = 1

abbrev pub scv_vec : ℕ
scv_vec = 16

abbrev pub scv_optional_present : ℕ
scv_optional_present = 1

abbrev pub scv_symbol : ℕ
scv_symbol = 15

abbrev pub scv_bytes : ℕ
scv_bytes = 13
