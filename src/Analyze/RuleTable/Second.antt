-- ===== src/Analyze/RuleTable/Second.antt =====
-- The second half of the entries of `all_rules` of src/analyze.rs.
use sorseal.Analyze.Findings.{
  panic_on_storage_read, admin_key_never_rotated, missing_token_balance_check, unchecked_env_caller,
  oracle_price_feed, flash_loan_approve, wasm_unreachable_export, wasm_no_exports,
}
use sorseal.Analyze.RuleTable.Meta.{RuleMeta, low, medium, high}

abbrev pub panic_on_storage_read_meta : RuleMeta
panic_on_storage_read_meta = record {
  id = "SORSEAL-109";
  name = "panic-on-storage-read";
  rule = panic_on_storage_read;
  severity = "Low";
  confidence = high;
  short_desc = "unwrap/expect on a storage .get() call";
  description =
      "An `unwrap()` or `expect()` is called on the result of a `env.storage().*.get()` call. If the key does not exist, this panics and reverts the entire transaction.";
  example = "let val: i128 = env.storage().persistent().get(&KEY).unwrap();";
  fix =
      "Use `.unwrap_or(default)` or `.get(...).map(...)` to handle missing keys gracefully instead of panicking.";
}

abbrev pub admin_key_never_rotated_meta : RuleMeta
admin_key_never_rotated_meta = record {
  id = "SORSEAL-110";
  name = "admin-key-never-rotated";
  rule = admin_key_never_rotated;
  severity = "Medium";
  confidence = low;
  short_desc = "Admin/owner key written without rotation pattern";
  description =
      "A storage write to a key named OWNER/ADMIN/ADMIN_KEY is detected without a corresponding `transfer_ownership` or `set_admin` pattern in the same function. A non-rotatable admin key means a compromised key cannot be replaced.";
  example = "env.storage().persistent().set(&OWNER, &admin);";
  fix =
      "Add a `transfer_ownership` function that requires auth from the current admin and accepts a new admin address.";
}

abbrev pub missing_token_balance_check_meta : RuleMeta
missing_token_balance_check_meta = record {
  id = "SORSEAL-111";
  name = "missing-token-balance-check";
  rule = missing_token_balance_check;
  severity = "High";
  confidence = medium;
  short_desc = "Token operation without balance/allowance check";
  description =
      "A token operation (burn, mint, transfer) is performed without first verifying that the contract holds sufficient assets or has an appropriate allowance. The contract may attempt to transfer more than it holds.";
  example = "token::Client::new(&env, &token).burn(&env.current_contract_address(), &amount);";
  fix =
      "Read `env.ledger().balance(...)` before performing token operations and verify the contract holds sufficient assets.";
}

abbrev pub unchecked_env_caller_meta : RuleMeta
unchecked_env_caller_meta = record {
  id = "SORSEAL-112";
  name = "unchecked-env-caller";
  rule = unchecked_env_caller;
  severity = "Medium";
  confidence = medium;
  short_desc = "Address parameter used without require_auth";
  description =
      "A caller-supplied Address parameter is used in a state mutation or value transfer without calling `require_auth` on it. An attacker can supply any address, spoofing the caller.";
  example =
      "pub fn withdraw(env: Env, to: Address, amount: i128) {\n    token::Client::new(&env, &token).transfer(&env.current_contract_address(), &to, &amount);\n}";
  fix =
      "Call `to.require_auth()` before using the caller-supplied address in any state mutation or value transfer.";
}

abbrev pub oracle_price_feed_meta : RuleMeta
oracle_price_feed_meta = record {
  id = "SORSEAL-113";
  name = "oracle-price-feed";
  rule = oracle_price_feed;
  severity = "Medium";
  confidence = low;
  short_desc = "Price-feed/oracle read without staleness or auth guard";
  description =
      "A financial decision (borrow cap, liquidation price, swap amount) is derived from an external price read (`get_price`, `price_feed`, `.latest_price`, oracle invoke) with no staleness check and no `require_auth` on the provider. A caller-controllable price is the classic single-oracle manipulation vector.";
  example =
      "let price: i128 = oracle::Client::new(&env, &feed).get_price();\nlet collateral: i128 = amount * price; // no staleness check";
  fix =
      "Validate the price age against a max-age threshold, verify the feed address is a trusted constant, and consider a two-source or TWAP-style oracle to resist single-feed manipulation.";
}

abbrev pub flash_loan_approve_meta : RuleMeta
flash_loan_approve_meta = record {
  id = "SORSEAL-114";
  name = "flash-loan-approve";
  rule = flash_loan_approve;
  severity = "High";
  confidence = low;
  short_desc = "Allowance granted + external call in the same function";
  description =
      "The function grants a token allowance (`approve`/`increase_allowance`) and then performs an external `invoke_contract`/`call_contract` in the same function. If the allowance is caller-controlled and the external call re-enters, value can be moved before the caller verifies it — the approve-and-exploit / flash-loan shape.";
  example =
      "token::Client::new(&env, &token).increase_allowance(&env.current_contract_address(), &spender, &amount);\nenv.invoke_contract::<i128>(&spender, &Symbol::new(\"take\"), (&amount,));";
  fix =
      "Set the allowance to zero before the external call (approve-then-set-0), move the external call after all allowance state changes, or cap the allowance with a `require_auth`-guarded amount.";
}

abbrev pub wasm_unreachable_export_meta : RuleMeta
wasm_unreachable_export_meta = record {
  id = "SORSEAL-115";
  name = "wasm-unreachable-export";
  rule = wasm_unreachable_export;
  severity = "High";
  confidence = high;
  short_desc = "Exported wasm body contains an unreachable trap";
  description =
      "The compiled WASM bytecode contains an exported function body with an `unreachable` opcode (`\\0x00` before `\\0x0b` end). Callers reaching this path revert. Source scanners cannot see this: it only appears in the deployed artifact — exactly what `analyze --wasm` is for.";
  example = "www 00 0b     ;; unreachable; end  inside an exported entry point";
  fix =
      "Inspect the trap path: the exported entry point should return a structured error (e.g. a Status/ErrCode) rather than an `unreachable`.";
}

abbrev pub wasm_no_exports_meta : RuleMeta
wasm_no_exports_meta = record {
  id = "SORSEAL-116";
  name = "wasm-no-exports";
  rule = wasm_no_exports;
  severity = "Medium";
  confidence = high;
  short_desc = "wasm module declares zero exports";
  description =
      "The compiled WASM module declares zero exports. A deployable Soroban contract must expose at least one entry point. This usually means the build didn't apply the `#[contractimpl]`/`wasm` export macros, or the wrong artifact is being sealed.";
  example = "(empty export section)";
  fix =
      "Ensure `#[contractimpl]` (or the `wasm` export attributes) are present so the build emits entry-point exports before deploying.";
}
