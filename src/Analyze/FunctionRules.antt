-- ===== src/Analyze/FunctionRules.antt =====
-- `run_function_rules` of src/analyze.rs: the rules that look at a whole function.
pub mod Authorized
use sorseal.Base.{
  ℕ, zero, suc, ◌+◌, ◌%◌, ◌^◌, ◌++◌, ◌&&◌, ◌||◌, not, Bool, true, false, List, [], ◌∷◌, any,
  if◌then◌else◌, Text,
}
use sorseal.Analyze.Findings.{Finding}
use sorseal.Analyze.Lines.{Line, has, has_any}
use sorseal.Analyze.Reports.{
  Report, found, missing_auth_report, reentrancy_report, unchecked_arithmetic_report,
  panic_on_input_report, unchecked_transfer_report, admin_key_never_rotated_report,
  missing_token_balance_check_report, unchecked_env_caller_report, oracle_price_feed_report,
  flash_loan_approve_report,
}

-- A `usize` as a `u32`.
unfoldable pub as_u32 : ℕ → ℕ
as_u32 n = n % 2 ^ 32

-- A `u32` sum, which wraps.
unfoldable pub add_u32 : ℕ → ℕ → ℕ
add_u32 a b = (a + b) % 2 ^ 32

-- `if test { findings.push(…) }`.
unfoldable pub report_if : Bool → Report → Text → ℕ → List Finding
report_if test r rel line = if test then found r rel line ∷ [] else []

unfoldable pub has_auth_call : Text → Bool
has_auth_call line = has "require_auth" line || has "require_auth_for_args" line

unfoldable pub mutates : Text → Bool
mutates line =
    has "env.storage().persistent().set" line
    || has "env.storage().instance().set" line
    || has "transfer" line
    || (has "try_into" line && (has "amount" line || has "balance" line))

unfoldable pub calls_contract : Text → Bool
calls_contract line = has "invoke_contract" line || has "call_contract" line

unfoldable pub transfers : Text → Bool
transfers line = has ".transfer(" line || has ".transfer_from(" line

unfoldable pub reads_balance : Text → Bool
reads_balance lower = has "balance" lower || has "allowance" lower

-- The five flags of the loop.
pub record Seen : Type 0 where
  pub has_auth : Bool
  pub mutates_state : Bool
  pub makes_external_call : Bool
  pub made_transfer : Bool
  pub reads_balance_or_allowance : Bool

abbrev pub nothing_seen : Seen
nothing_seen = record {
  has_auth = false;
  mutates_state = false;
  makes_external_call = false;
  made_transfer = false;
  reads_balance_or_allowance = false;
}

-- What one turn of the loop does to the flags.
unfoldable pub see : Seen → Line → Seen
see seen l = record {
  has_auth = if has_auth_call l.stripped then true else seen.has_auth;
  mutates_state = if mutates l.stripped then true else seen.mutates_state;
  makes_external_call = if calls_contract l.stripped then true else seen.makes_external_call;
  made_transfer = if transfers l.stripped then true else seen.made_transfer;
  reads_balance_or_allowance =
      if reads_balance l.lowered then true else seen.reads_balance_or_allowance;
}

unfoldable pub panics_on_input : Text → Bool
panics_on_input line =
    let valueish =
      has_any ("amount" ∷ "balance" ∷ "transfer" ∷ "withdraw" ∷ "burn" ∷ "mint" ∷ []) line in
    let has_panic = has "panic!(" line || has "panic! (" line in
    let has_unwrap = (has "unwrap()" line || has "expect(" line) && valueish in
    (has_panic || has_unwrap) && not (has "require_auth" line)

unfoldable pub computes_unchecked : Text → Bool
computes_unchecked line =
    let uses_checked = has "checked_" line in
    let value_like =
      has_any ("amount" ∷ "balance" ∷ "u128" ∷ "i128" ∷ "sabi" ∷ "Token" ∷ []) line in
    not uses_checked && value_like && has_any ("+" ∷ "-" ∷ "*" ∷ []) line

-- What one turn of the loop pushes.
unfoldable pub line_findings : Text → ℕ → Line → List Finding
line_findings rel lineno l =
    report_if (panics_on_input l.stripped) panic_on_input_report rel lineno
    ++ report_if (computes_unchecked l.stripped) unchecked_arithmetic_report rel lineno

-- The loop over the lines; `li` counts from where the lines begin.
unfoldable pub scan_lines : Text → ℕ → ℕ → Seen → List Line → Seen × List Finding
scan_lines rel fn_start li seen [] = (seen, [])
scan_lines rel fn_start li seen (l ∷ ls) =
    let later = scan_lines rel fn_start (suc li) (see seen l) ls in
    (later.0, line_findings rel (add_u32 fn_start (as_u32 li)) l ++ later.1)

unfoldable pub writes_admin_key : Line → Bool
writes_admin_key l =
    let has_set = has ".set(" l.stripped in
    let key_is_admin =
      has_any
        ("Symbol::new(\"OWNER\"" ∷ "Symbol::new(\"ADMIN\"" ∷ "Symbol::new(\"ADMIN_KEY\""
          ∷ "Symbol::new(\"owner\"" ∷ "Symbol::new(\"admin\"" ∷ [])
        l.raw in
    has_set && key_is_admin

unfoldable pub rotates_key : Text → Bool
rotates_key line = has_any ("transfer_ownership" ∷ "rotate" ∷ "set_admin" ∷ []) line

unfoldable pub has_token_op : Text → Bool
has_token_op line = has_any (".burn(" ∷ ".mint(" ∷ ".transfer(" ∷ ".transfer_from(" ∷ []) line

unfoldable pub checks_balance : Text → Bool
checks_balance lower = has_any ("balance" ∷ "allowance" ∷ "checked_" ∷ []) lower

unfoldable pub uses_address : Text → Bool
uses_address line = has "Address" line && has_any (".transfer(" ∷ "to:" ∷ "&to" ∷ []) line

unfoldable pub reads_price : Text → Bool
reads_price lower =
    has_any ("get_price" ∷ "price_feed" ∷ "price_feed_addr" ∷ ".latest_price" ∷ []) lower
    || (has "invoke_contract" lower && has "price" lower)
    || has "oracle" lower

unfoldable pub guards_price : Text → Bool
guards_price lower =
    has_any ("require_auth" ∷ "timestamp" ∷ "lag" ∷ "stale" ∷ "checked_price" ∷ "max_age" ∷ [])
      lower

unfoldable pub grants_allowance : Text → Bool
grants_allowance lower =
    has_any (".approve(" ∷ ".increase_allowance(" ∷ ".decrease_allowance(" ∷ []) lower

-- What is pushed behind the loop, all of it at the function's first line.
unfoldable pub summary_findings : Text → ℕ → Seen → List Line → List Finding
summary_findings rel fn_start seen ls =
    let any_stripped : (Text → Bool) → Bool = λ test. any (λ (l : Line). test l.stripped) ls in
    let any_lowered : (Text → Bool) → Bool = λ test. any (λ (l : Line). test l.lowered) ls in
    let uses_address_param = any_stripped uses_address && not (any_stripped (has "require_auth")) in
    report_if (seen.mutates_state && not seen.has_auth) missing_auth_report rel fn_start
    ++ report_if (seen.mutates_state && (seen.makes_external_call && not seen.has_auth))
        reentrancy_report rel fn_start
    ++ report_if (seen.made_transfer && not seen.reads_balance_or_allowance)
        unchecked_transfer_report rel fn_start
    ++ report_if (any writes_admin_key ls && not (any_stripped rotates_key))
        admin_key_never_rotated_report rel fn_start
    ++ report_if (any_stripped has_token_op && not (any_lowered checks_balance))
        missing_token_balance_check_report rel fn_start
    ++ report_if (uses_address_param && seen.mutates_state) unchecked_env_caller_report rel fn_start
    ++ report_if (any_lowered reads_price && (not (any_lowered guards_price) && seen.mutates_state))
        oracle_price_feed_report rel fn_start
    ++ report_if (any_lowered grants_allowance && any_stripped calls_contract)
        flash_loan_approve_report rel fn_start

-- The findings that the call appends.
unfoldable pub run_function_rules : List Line → Text → ℕ → List Finding
run_function_rules ls rel fn_start =
    let loop = scan_lines rel fn_start 0 nothing_seen ls in
    loop.1 ++ summary_findings rel fn_start loop.0 ls
