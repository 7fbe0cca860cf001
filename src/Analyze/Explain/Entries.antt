-- ===== src/Analyze/Explain/Entries.antt =====
-- The entries of the rule table of src/analyze.rs, and the identifiers and names that lead to them.
use sorseal.Base.{◌≡◌, refl, ap, ◌∙◌, ◌⊎◌, inl, inr, some, find, text, Text, to_ascii_lowercase, ok}
use sorseal.Analyze.Findings.{
  RuleId, rule_id, rule_str, missing_auth, reentrancy, unchecked_arithmetic, panic_on_input,
  unchecked_transfer, missing_reentrancy_guard, hardcoded_storage_key, unsafe_raw_pointer,
  panic_on_storage_read, admin_key_never_rotated, missing_token_balance_check, unchecked_env_caller,
  oracle_price_feed, flash_loan_approve, wasm_unreachable_export, wasm_no_exports,
}
use sorseal.Analyze.RuleTable.{RuleMeta, all_rules}
use sorseal.Analyze.Explain.{rule_name, rule_meta, rule_is, rule_from_id}

-- The rule's entry is the one with its identifier and its name.
abbrev pub IsEntry : RuleId → RuleMeta → Type 0
IsEntry rule m =
    (rule_meta rule ≡ ok m) × (m.rule ≡ rule) × (m.id ≡ rule_id rule) × (m.name ≡ rule_name rule)

-- The first entry that a text in lower case fits.
abbrev Finds : Text → RuleMeta → Type 0
Finds s m = find (rule_is (to_ascii_lowercase s)) all_rules ≡ some m

rule_lem :
    (rule : RuleId)
    → (m : RuleMeta) × IsEntry rule m × Finds (rule_str rule) m × Finds (text (rule_name rule)) m
unfolding rule_meta rule_is rule_name rule_str
rule_lem missing_auth = (_, (refl, refl, refl, refl), refl, refl)
rule_lem reentrancy = (_, (refl, refl, refl, refl), refl, refl)
rule_lem unchecked_arithmetic = (_, (refl, refl, refl, refl), refl, refl)
rule_lem panic_on_input = (_, (refl, refl, refl, refl), refl, refl)
rule_lem unchecked_transfer = (_, (refl, refl, refl, refl), refl, refl)
rule_lem missing_reentrancy_guard = (_, (refl, refl, refl, refl), refl, refl)
rule_lem hardcoded_storage_key = (_, (refl, refl, refl, refl), refl, refl)
rule_lem unsafe_raw_pointer = (_, (refl, refl, refl, refl), refl, refl)
rule_lem panic_on_storage_read = (_, (refl, refl, refl, refl), refl, refl)
rule_lem admin_key_never_rotated = (_, (refl, refl, refl, refl), refl, refl)
rule_lem missing_token_balance_check = (_, (refl, refl, refl, refl), refl, refl)
rule_lem unchecked_env_caller = (_, (refl, refl, refl, refl), refl, refl)
rule_lem oracle_price_feed = (_, (refl, refl, refl, refl), refl, refl)
rule_lem flash_loan_approve = (_, (refl, refl, refl, refl), refl, refl)
rule_lem wasm_unreachable_export = (_, (refl, refl, refl, refl), refl, refl)
rule_lem wasm_no_exports = (_, (refl, refl, refl, refl), refl, refl)

-- Every rule has an entry in the table, so that the lookup does not panic, and a text that is the rule's identifier or
-- its name, in upper or lower case, is resolved to this entry.
pub rule_from_id-rule_meta :
    (rule : RuleId) (given : Text)
    → (to_ascii_lowercase given ≡ to_ascii_lowercase (rule_str rule))
      ⊎ (to_ascii_lowercase given ≡ to_ascii_lowercase (text (rule_name rule)))
    → (m : RuleMeta) × IsEntry rule m × (rule_from_id given ≡ some m)
unfolding rule_from_id
rule_from_id-rule_meta rule given h =
    let (m, entry, by_id, by_name) = rule_lem rule in
    (
      m,
      entry,
      elim h [
        | inl e ↦ ap (λ s. find (rule_is s) all_rules) e ∙ by_id
        | inr e ↦ ap (λ s. find (rule_is s) all_rules) e ∙ by_name
      ],
    )
