-- ===== src/Analyze/RuleTable.antt =====
-- `all_rules` of src/analyze.rs: what is documented of each rule.
pub mod Meta
mod First
mod Second
pub use Meta.*
use First.*
use Second.*
use sorseal.Base.{List, [], ◌∷◌}

abbrev pub all_rules : List RuleMeta
all_rules =
    missing_auth_meta ∷ reentrancy_meta ∷ unchecked_arithmetic_meta ∷ panic_on_input_meta
    ∷ unchecked_transfer_meta ∷ missing_reentrancy_guard_meta ∷ hardcoded_storage_key_meta
    ∷ unsafe_raw_pointer_meta ∷ panic_on_storage_read_meta ∷ admin_key_never_rotated_meta
    ∷ missing_token_balance_check_meta ∷ unchecked_env_caller_meta ∷ oracle_price_feed_meta
    ∷ flash_loan_approve_meta ∷ wasm_unreachable_export_meta ∷ wasm_no_exports_meta ∷ []
