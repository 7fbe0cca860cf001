-- ===== src/Analyze/Reports.antt =====
-- The findings that the rules of src/analyze.rs report, without their places.
use sorseal.Base.{ℕ, text, Text}
use Prim.Native.String.{String}
use sorseal.Analyze.Findings.{
  RuleId, missing_auth, reentrancy, unchecked_arithmetic, panic_on_input, unchecked_transfer,
  missing_reentrancy_guard, hardcoded_storage_key, unsafe_raw_pointer, panic_on_storage_read,
  admin_key_never_rotated, missing_token_balance_check, unchecked_env_caller, oracle_price_feed,
  flash_loan_approve, Severity, low, medium, high, critical, Finding,
}

-- The literals of one `Finding { … }`.
pub record Report : Type 0 where
  pub rule : RuleId
  pub severity : Severity
  pub message : String
  pub remediation : String

-- The finding that is pushed for a file and a line.
unfoldable pub found : Report → Text → ℕ → Finding
unfolding text
found r rel line = record {
  rule = r.rule;
  severity = r.severity;
  message = text r.message;
  file = rel;
  line = line;
  remediation = text r.remediation;
}

abbrev pub panic_on_input_report : Report
panic_on_input_report = record {
  rule = panic_on_input;
  severity = low;
  message =
      "`panic!` or `unwrap()` on a code path that may be reachable from callers; prefer returning a Result and reverting with a clear error";
  remediation =
      "Replace panics with `Result` and use `?`/`ensure!` so callers (and the front-end) can handle failures gracefully.";
}

abbrev pub unchecked_arithmetic_report : Report
unchecked_arithmetic_report = record {
  rule = unchecked_arithmetic;
  severity = medium;
  message =
      "unchecked arithmetic on a likely value quantity; consider `checked_add/sub/mul` to guard against overflow";
  remediation =
      "Use `checked_add`, `checked_sub`, `checked_mul` on I128/amounts and handle `None` with a revert.";
}

abbrev pub missing_auth_report : Report
missing_auth_report = record {
  rule = missing_auth;
  severity = critical;
  message =
      "function mutates contract state or moves value without `require_auth`; an unauthenticated caller may drive changes";
  remediation =
      "Call `env.current_contract_address().require_auth()` (or `require_auth_for_args`) before any state mutation that affects value.";
}

abbrev pub reentrancy_report : Report
reentrancy_report = record {
  rule = reentrancy;
  severity = high;
  message =
      "possible reentrancy: the function mutates state and makes an external/invoke call without `require_auth`";
  remediation =
      "Apply a `non_reentrant` guard, move the external call after all state updates, or rely on `require_auth` of the target.";
}

abbrev pub unchecked_transfer_report : Report
unchecked_transfer_report = record {
  rule = unchecked_transfer;
  severity = high;
  message =
      "token `.transfer`/`.transfer_from` call with no prior balance/allowance read; the transferred amount is not derived from what this contract actually holds";
  remediation =
      "Read `env.ledger().balance(...)` (or a stored allowance) first and derive the amount from it, or add a `require_auth`-guarded allowance check before transferring.";
}

abbrev pub admin_key_never_rotated_report : Report
admin_key_never_rotated_report = record {
  rule = admin_key_never_rotated;
  severity = medium;
  message =
      "admin/owner key is written to storage without a rotation/transfer pattern in the same function";
  remediation =
      "Add a `transfer_ownership` or `set_admin` function that requires auth from the current admin and accepts a new admin address, so the key can be rotated.";
}

abbrev pub missing_token_balance_check_report : Report
missing_token_balance_check_report = record {
  rule = missing_token_balance_check;
  severity = high;
  message =
      "token operation (burn/mint/transfer) without a balance or allowance check; the contract may not hold sufficient assets";
  remediation =
      "Read `env.ledger().balance(...)` before performing token operations and verify the contract holds sufficient assets, or use `checked_*` arithmetic.";
}

abbrev pub unchecked_env_caller_report : Report
unchecked_env_caller_report = record {
  rule = unchecked_env_caller;
  severity = medium;
  message = "caller/address parameter used without `require_auth`; the address may be spoofable";
  remediation =
      "Call `address.require_auth()` before using the caller-supplied address in any state mutation or value transfer.";
}

abbrev pub oracle_price_feed_report : Report
oracle_price_feed_report = record {
  rule = oracle_price_feed;
  severity = medium;
  message =
      "price-feed/oracle read with no staleness check and no auth on the provider; the price may be manipulable by a caller";
  remediation =
      "Validate the price age against a max-age threshold, verify the feed contract address is a trusted constant, and consider a two-source or TWAP-style oracle to resist single-feed manipulation.";
}

abbrev pub flash_loan_approve_report : Report
flash_loan_approve_report = record {
  rule = flash_loan_approve;
  severity = high;
  message =
      "token allowance is granted and an external call is made in the same function; a malicious contract could use the allowance before it is checked";
  remediation =
      "Set the allowance to zero before the external call (approve-then-set-0), move the external call after all allowance state changes, or cap the allowance with a `require_auth`-guarded amount.";
}

abbrev pub missing_reentrancy_guard_report : Report
missing_reentrancy_guard_report = record {
  rule = missing_reentrancy_guard;
  severity = medium;
  message =
      "external `invoke_contract`/`call_contract` call detected without an adjacent `non_reentrant` guard";
  remediation =
      "Consider guarding the calling function with `#[non_reentrant]` to prevent reentrant entry.";
}

abbrev pub hardcoded_storage_key_report : Report
hardcoded_storage_key_report = record {
  rule = hardcoded_storage_key;
  severity = medium;
  message =
      "hardcoded `Symbol::new(\"...\")` used as a persistent storage key; consider using a namespaced constant or derive the key from the contract address";
  remediation =
      "Define storage keys as `const` symbols with a unique namespace prefix, or use a hash-based key to avoid collisions across upgrades.";
}

abbrev pub unsafe_raw_pointer_report : Report
unsafe_raw_pointer_report = record {
  rule = unsafe_raw_pointer;
  severity = critical;
  message =
      "`unsafe` block or raw pointer operation detected in contract code; Soroban contracts execute in a sandbox and unsafe is not supported";
  remediation =
      "Remove the `unsafe` block. Soroban contracts cannot use unsafe code — the runtime sandbox enforces memory safety. If you need FFI, use the Soroban SDK's safe abstractions.";
}

abbrev pub panic_on_storage_read_report : Report
panic_on_storage_read_report = record {
  rule = panic_on_storage_read;
  severity = low;
  message = "`unwrap()`/`expect()` on a storage `.get()` call; panics if the key is absent";
  remediation =
      "Use `.unwrap_or(default)` or `.get(...).map(...)` to handle missing keys gracefully instead of panicking.";
}
