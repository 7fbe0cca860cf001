-- ===== src/Analyze/Findings.antt =====
-- The types of src/analyze.rs, and the methods of `Analysis`.
use sorseal.Base.{
  ℕ, ◌++◌, Bool, List, [], ◌∷◌, Option, none, some, if◌then◌else◌, leb, nat_beq, any, filter,
  length, text, Text, Bytes,
}
use Prim.Native.String.{String}
use sorseal.Interfaces.Files.{Sha256}
use sorseal.Digest.Hex.{hex}
use sorseal.Digest.Tree.{as_bytes}
use sorseal.Clock.{digits}

pub data RuleId : Type 0 where
  missing_auth reentrancy unchecked_arithmetic panic_on_input unchecked_transfer : RuleId
  missing_reentrancy_guard hardcoded_storage_key unsafe_raw_pointer panic_on_storage_read : RuleId
  admin_key_never_rotated missing_token_balance_check unchecked_env_caller : RuleId
  oracle_price_feed flash_loan_approve wasm_unreachable_export wasm_no_exports : RuleId

-- `RuleId::as_str`.
abbrev pub rule_id : RuleId → String
rule_id missing_auth = "SORSEAL-101"
rule_id reentrancy = "SORSEAL-102"
rule_id unchecked_arithmetic = "SORSEAL-103"
rule_id panic_on_input = "SORSEAL-104"
rule_id unchecked_transfer = "SORSEAL-105"
rule_id missing_reentrancy_guard = "SORSEAL-106"
rule_id hardcoded_storage_key = "SORSEAL-107"
rule_id unsafe_raw_pointer = "SORSEAL-108"
rule_id panic_on_storage_read = "SORSEAL-109"
rule_id admin_key_never_rotated = "SORSEAL-110"
rule_id missing_token_balance_check = "SORSEAL-111"
rule_id unchecked_env_caller = "SORSEAL-112"
rule_id oracle_price_feed = "SORSEAL-113"
rule_id flash_loan_approve = "SORSEAL-114"
rule_id wasm_unreachable_export = "SORSEAL-115"
rule_id wasm_no_exports = "SORSEAL-116"

unfoldable pub rule_str : RuleId → Text
unfolding text
rule_str r = text (rule_id r)

pub data Severity : Type 0 where
  low medium high critical : Severity

-- `Severity::as_str`.
unfoldable pub severity_str : Severity → Text
unfolding text
severity_str critical = text "Critical"
severity_str high = text "High"
severity_str medium = text "Medium"
severity_str low = text "Low"

-- The derived order, by the variants' places.
abbrev pub rank : Severity → ℕ
rank low = 0
rank medium = 1
rank high = 2
rank critical = 3

pub record Finding : Type 0 where
  pub rule : RuleId
  pub severity : Severity
  pub message : Text
  pub file : Text
  pub line : ℕ
  pub remediation : Text

pub record Analysis : Type 0 where
  pub ok : Bool
  pub findings : List Finding

-- What the digest's hasher is fed for the findings.
unfoldable pub finding_bytes : List Finding → Bytes
unfolding rule_str severity_str
finding_bytes [] = []
finding_bytes (f ∷ fs) =
    as_bytes (rule_str f.rule)
    ++ (0
        ∷ (as_bytes (severity_str f.severity)
            ++ (0
                ∷ (as_bytes f.file
                    ++ (0
                        ∷ (as_bytes (digits 20 f.line)
                            ++ (0 ∷ (as_bytes f.message ++ (0 ∷ finding_bytes fs)))))))))

unfoldable pub digest : Sha256 → Analysis → Text
unfolding finding_bytes
digest sha a = hex (sha (finding_bytes a.findings))

-- `max_by_key`: of equal ones the last.
unfoldable pub worst_of : List Finding → Option Severity
worst_of [] = none
worst_of (f ∷ fs) = elim (worst_of fs) [
  | none ↦ some f.severity
  | some s ↦ some (if leb (rank f.severity) (rank s) then s else f.severity)
]

unfoldable pub worst_severity : Analysis → Option Severity
unfolding worst_of
worst_severity a = worst_of a.findings

unfoldable pub count_by_severity : Analysis → Severity → ℕ
count_by_severity a s =
    length (filter (λ (f : Finding). nat_beq (rank f.severity) (rank s)) a.findings)

unfoldable pub has_findings_at_or_above : Analysis → Severity → Bool
has_findings_at_or_above a threshold =
    any (λ (f : Finding). leb (rank threshold) (rank f.severity)) a.findings
