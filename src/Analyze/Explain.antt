-- ===== src/Analyze/Explain.antt =====
-- `rule_meta`, `rule_from_id` and the confidence of src/analyze.rs.
pub mod Entries
use Prim.Native.String.{String}
use sorseal.Base.{
  ℕ, ascii_lower, nat_beq, ◌>>=◌, ◌≡◌, refl, ◌||◌, Bool, true, false, List, [], ◌∷◌, Option, none,
  some, find, ◌==◌, text_eq, text, Text, to_ascii_lowercase, Result, ok, panic,
}
use sorseal.Analyze.Findings.{
  RuleId, missing_auth, reentrancy, unchecked_arithmetic, panic_on_input, unchecked_transfer,
  missing_reentrancy_guard, hardcoded_storage_key, unsafe_raw_pointer, panic_on_storage_read,
  admin_key_never_rotated, missing_token_balance_check, unchecked_env_caller, oracle_price_feed,
  flash_loan_approve, wasm_unreachable_export, wasm_no_exports, rule_str, rule_id, Severity,
  severity_str, Finding,
}
use sorseal.Analyze.RuleTable.{RuleMeta, all_rules, Confidence, low, medium, high}

-- `RuleId::name`.
unfoldable pub rule_name : RuleId → String
rule_name missing_auth = "missing-authorization"
rule_name reentrancy = "reentrancy"
rule_name unchecked_arithmetic = "unchecked-arithmetic"
rule_name panic_on_input = "panic-on-user-input"
rule_name unchecked_transfer = "unchecked-transfer"
rule_name missing_reentrancy_guard = "missing-reentrancy-guard"
rule_name hardcoded_storage_key = "hardcoded-storage-key"
rule_name unsafe_raw_pointer = "unsafe-raw-pointer"
rule_name panic_on_storage_read = "panic-on-storage-read"
rule_name admin_key_never_rotated = "admin-key-never-rotated"
rule_name missing_token_balance_check = "missing-token-balance-check"
rule_name unchecked_env_caller = "unchecked-env-caller"
rule_name oracle_price_feed = "oracle-price-feed"
rule_name flash_loan_approve = "flash-loan-approve"
rule_name wasm_unreachable_export = "wasm-unreachable-export"
rule_name wasm_no_exports = "wasm-no-exports"

-- The variants' places, by which the derived equality compares them.
abbrev pub place : RuleId → ℕ
place missing_auth = 0
place reentrancy = 1
place unchecked_arithmetic = 2
place panic_on_input = 3
place unchecked_transfer = 4
place missing_reentrancy_guard = 5
place hardcoded_storage_key = 6
place unsafe_raw_pointer = 7
place panic_on_storage_read = 8
place admin_key_never_rotated = 9
place missing_token_balance_check = 10
place unchecked_env_caller = 11
place oracle_price_feed = 12
place flash_loan_approve = 13
place wasm_unreachable_export = 14
place wasm_no_exports = 15

-- `Confidence::as_str`.
unfoldable pub confidence_str : Confidence → String
confidence_str low = "low"
confidence_str medium = "medium"
confidence_str high = "high"

unfoldable pub find_rule : List RuleMeta → RuleId → Option RuleMeta
find_rule rules rule = find (λ (m : RuleMeta). nat_beq (place m.rule) (place rule)) rules

-- `find` and `expect`.
unfoldable pub rule_meta : RuleId → Result RuleMeta
unfolding find_rule
rule_meta rule = elim (find_rule all_rules rule) [ some m ↦ ok m | none ↦ panic ]

-- `eq_ignore_ascii_case` of the entry's identifier or name and of a text, which is given in lower case.
unfoldable pub rule_is : Text → RuleMeta → Bool
unfolding to_ascii_lowercase text
rule_is lowered m =
    to_ascii_lowercase (text m.id) == lowered || to_ascii_lowercase (text m.name) == lowered

unfoldable pub rule_from_id : Text → Option RuleMeta
unfolding rule_is
rule_from_id id = find (rule_is (to_ascii_lowercase id)) all_rules

-- `Finding::confidence`.
unfoldable pub finding_confidence : Finding → Result Confidence
unfolding rule_meta
finding_confidence f = rule_meta f.rule >>= λ m. ok m.confidence
