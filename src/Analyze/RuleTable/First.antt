-- ===== src/Analyze/RuleTable/First.antt =====
-- The first half of the entries of `all_rules` of src/analyze.rs.
use sorseal.Analyze.Findings.{
  missing_auth, reentrancy, unchecked_arithmetic, panic_on_input, unchecked_transfer,
  missing_reentrancy_guard, hardcoded_storage_key, unsafe_raw_pointer,
}
use sorseal.Analyze.RuleTable.Meta.{RuleMeta, medium, high}

abbrev pub missing_auth_meta : RuleMeta
missing_auth_meta = record {
  id = "SORSEAL-101";
  name = "missing-authorization";
  rule = missing_auth;
  severity = "Critical";
  confidence = high;
  short_desc = "State or value mutation without require_auth";
  description =
      "Detects a function that mutates contract state or moves value without calling `require_auth` (or `require_auth_for_args`) first. An unauthenticated caller can drive the change, so a contract holding value here is vulnerable to being drained.";
  example =
      "pub fn withdraw(env: Env, to: Address, amount: i128) {\n    env.storage().persistent().set(&KEY, &0i128);   // no require_auth\n}";
  fix =
      "Call `env.current_contract_address().require_auth()` (or `require_auth_for_args`) before any state mutation that affects value.";
}

abbrev pub reentrancy_meta : RuleMeta
reentrancy_meta = record {
  id = "SORSEAL-102";
  name = "reentrancy";
  rule = reentrancy;
  severity = "High";
  confidence = medium;
  short_desc = "Possible reentrancy (external call after state mutation)";
  description =
      "The function mutates contract state and then makes an external `invoke_contract`/`call_contract` call without authorization. If the external call re-enters this contract before state is committed, an attacker can observe or drive inconsistent state.";
  example =
      "env.storage().persistent().set(&BALANCE, &new);\nenv.invoke_contract::<i128>(&amount, &Symbol::new(\"apply\"), (&amount,));";
  fix =
      "Apply a `non_reentrant` guard, move the external call after all state updates, or rely on `require_auth` of the target.";
}

abbrev pub unchecked_arithmetic_meta : RuleMeta
unchecked_arithmetic_meta = record {
  id = "SORSEAL-103";
  name = "unchecked-arithmetic";
  rule = unchecked_arithmetic;
  severity = "Medium";
  confidence = medium;
  short_desc = "Unchecked arithmetic on value quantities";
  description =
      "Raw `+`/`-`/`*` is applied to a likely value quantity (amount, balance, i128) without a `checked_*` helper, so an overflow can silently wrap balances.";
  example = "let new_balance: i128 = balance - amount; // unchecked subtraction";
  fix =
      "Use `checked_add`, `checked_sub`, `checked_mul` on I128/amounts and handle `None` with a revert.";
}

abbrev pub panic_on_input_meta : RuleMeta
panic_on_input_meta = record {
  id = "SORSEAL-104";
  name = "panic-on-user-input";
  rule = panic_on_input;
  severity = "Low";
  confidence = high;
  short_desc = "Panic/unwrap on user-reachable code path";
  description =
      "`panic!` or `unwrap()`/`expect()` on a code path that callers can reach, which reverts the whole transaction instead of returning a structured error and can hurt cross-contract callers.";
  example = "let rate: i128 = env.storage().instance().get(&KEY).unwrap();";
  fix =
      "Replace panics with `Result` and use `?`/`ensure!` so callers (and the front-end) can handle failures gracefully.";
}

abbrev pub unchecked_transfer_meta : RuleMeta
unchecked_transfer_meta = record {
  id = "SORSEAL-105";
  name = "unchecked-transfer";
  rule = unchecked_transfer;
  severity = "High";
  confidence = medium;
  short_desc = "Value transfer without an apparent balance/auth check";
  description =
      "A token `.transfer`/`.transfer_from` call transfers an amount that was not derived from a prior `balance`/`allowance` read in the same function. Hard-coded or balance-insensitive amounts are a classic Soroban drain vector.";
  example =
      "pub fn sweep(env: Env, to: Address) {\n    let amount = SOME_CONSTANT;\n    token::Client::new(&env, &to).transfer(&env.current_contract_address(), &to, &amount);\n}";
  fix =
      "Read `env.ledger().balance(...)` (or a stored allowance) first and derive the amount from it, or add a `require_auth`-guarded allowance check before transferring.";
}

abbrev pub missing_reentrancy_guard_meta : RuleMeta
missing_reentrancy_guard_meta = record {
  id = "SORSEAL-106";
  name = "missing-reentrancy-guard";
  rule = missing_reentrancy_guard;
  severity = "Medium";
  confidence = medium;
  short_desc = "External call without a non_reentrant guard";
  description =
      "An `invoke_contract`/`call_contract` call appears without an adjacent `#[non_reentrant]` guard, so the calling function can be re-entered while already executing.";
  example = "env.invoke_contract::<i128>(&amount, &Symbol::new(\"apply\"), (&amount,));";
  fix =
      "Consider guarding the calling function with `#[non_reentrant]` to prevent reentrant entry.";
}

abbrev pub hardcoded_storage_key_meta : RuleMeta
hardcoded_storage_key_meta = record {
  id = "SORSEAL-107";
  name = "hardcoded-storage-key";
  rule = hardcoded_storage_key;
  severity = "Medium";
  confidence = medium;
  short_desc = "Hardcoded Symbol::new as a persistent storage key";
  description =
      "A `Symbol::new(\"...\")` literal is used as a persistent/instance storage key. Hardcoded keys risk collision across contract upgrades or with third-party contracts sharing the same storage namespace.";
  example = "env.storage().persistent().set(&Symbol::new(\"balance\"), &amount);";
  fix =
      "Define storage keys as `const` symbols with a unique namespace prefix, or use a hash-based key to avoid collisions.";
}

abbrev pub unsafe_raw_pointer_meta : RuleMeta
unsafe_raw_pointer_meta = record {
  id = "SORSEAL-108";
  name = "unsafe-raw-pointer";
  rule = unsafe_raw_pointer;
  severity = "Critical";
  confidence = high;
  short_desc = "unsafe block or raw pointer in contract code";
  description =
      "An `unsafe` block or raw pointer dereference was detected in contract code. Soroban contracts execute in a sandboxed environment that does not support unsafe; these blocks are either dead code or indicate a fundamental misuse of the SDK.";
  example = "unsafe { (*ptr).write(value); }";
  fix =
      "Remove the `unsafe` block. Soroban contracts cannot use unsafe code — the runtime sandbox enforces memory safety. Use the SDK's safe abstractions.";
}
