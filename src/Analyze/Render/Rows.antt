-- ===== src/Analyze/Render/Rows.antt =====
-- The rows of the Markdown table of src/analyze.rs.
use sorseal.Base.{
  all, ℕ, zero, suc, ◌+◌, ◌%◌, ◌/◌, ◌≡◌, refl, ap, ◌∙◌, ◌++◌, ◌&&◌, not, Bool, true, false, List,
  [], ◌∷◌, if◌then◌else◌, nat_beq, ltb, length, text, Text, All, ok, Bool-cases, inl, inr, arith,
}
use sorseal.Clock.{digits}
use sorseal.Analyze.Findings.{
  Finding, RuleId, rule_str, missing_auth, reentrancy, unchecked_arithmetic, panic_on_input,
  unchecked_transfer, missing_reentrancy_guard, hardcoded_storage_key, unsafe_raw_pointer,
  panic_on_storage_read, admin_key_never_rotated, missing_token_balance_check, unchecked_env_caller,
  oracle_price_feed, flash_loan_approve, wasm_unreachable_export, wasm_no_exports, Severity,
  severity_str, low, medium, high, critical,
}
use sorseal.Analyze.RuleTable
use sorseal.Analyze.RuleTable.{Confidence}
use sorseal.Analyze.Explain.{confidence_str, finding_confidence}
use sorseal.Analyze.Explain.Entries.{rule_from_id-rule_meta}
use sorseal.Analyze.Render.{concat, bar, md_escape, row, each_finding}

-- The bars of a text with no backslash in front of them, a backslash being one that is not itself behind one.
unfoldable pub bars_from : Bool → Text → ℕ
bars_from escaped [] = 0
bars_from true (c ∷ s) = bars_from false s
bars_from false (c ∷ s) =
    let later = bars_from (nat_beq c 0x5c) s in if nat_beq c bar then suc later else later

abbrev pub HasNoBackslash : Text → Type 0
HasNoBackslash s = All (λ c. nat_beq c 0x5c ≡ false) s

-- What is escaped adds no bar.
bars_from-md_escape :
    (s rest : Text)
    → HasNoBackslash s
    → bars_from false (md_escape s ++ rest) ≡ bars_from false rest
unfolding bars_from md_escape
bars_from-md_escape [] rest h = refl
bars_from-md_escape (c ∷ s) rest (a, h) = elim (Bool-cases (nat_beq c bar)) [
  | inl e ↦ rw e (bars_from-md_escape s rest h)
  | inr e ↦ rw e (rw a (rw e (bars_from-md_escape s rest h)))
]

-- Nor does a text without bars and backslashes.
abbrev is_plain : ℕ → Bool
is_plain c = not (nat_beq c 0x5c) && not (nat_beq c bar)

plain_lem :
    (s rest : Text) → all is_plain s ≡ true → bars_from false (s ++ rest) ≡ bars_from false rest
unfolding bars_from
plain_lem [] rest h = refl
plain_lem (c ∷ s) rest h =
    let e : nat_beq c 0x5c ≡ false = ground arith in
    let f : nat_beq c bar ≡ false = ground arith in rw e (rw f (plain_lem s rest (ground arith)))

all-append : (s t : Text) → all is_plain (s ++ t) ≡ (all is_plain s && all is_plain t)
all-append [] t = refl
all-append (c ∷ s) t = ground (arith, all-append s t)

digits-plain : (fuel n : ℕ) → all is_plain (digits fuel n) ≡ true
unfolding digits
digits-plain zero n = refl
digits-plain (suc fuel) n = elim (Bool-cases (ltb n 10)) [
  | inl e ↦ rw e (ground arith)
  | inr e ↦ rw e (
      all-append (digits fuel (n / 10)) ((n % 10 + b'0') ∷ [])
      ∙ rw (digits-plain fuel (n / 10)) (ground arith))
]

severity_str-plain : (s : Severity) → all is_plain (severity_str s) ≡ true
unfolding severity_str
severity_str-plain low = refl
severity_str-plain medium = refl
severity_str-plain high = refl
severity_str-plain critical = refl

confidence_str-plain : (c : Confidence) → all is_plain (text (confidence_str c)) ≡ true
unfolding confidence_str text
confidence_str-plain RuleTable.low = refl
confidence_str-plain RuleTable.medium = refl
confidence_str-plain RuleTable.high = refl

rule_str-plain : (r : RuleId) → all is_plain (rule_str r) ≡ true
unfolding rule_str
rule_str-plain missing_auth = refl
rule_str-plain reentrancy = refl
rule_str-plain unchecked_arithmetic = refl
rule_str-plain panic_on_input = refl
rule_str-plain unchecked_transfer = refl
rule_str-plain missing_reentrancy_guard = refl
rule_str-plain hardcoded_storage_key = refl
rule_str-plain unsafe_raw_pointer = refl
rule_str-plain panic_on_storage_read = refl
rule_str-plain admin_key_never_rotated = refl
rule_str-plain missing_token_balance_check = refl
rule_str-plain unchecked_env_caller = refl
rule_str-plain oracle_price_feed = refl
rule_str-plain flash_loan_approve = refl
rule_str-plain wasm_unreachable_export = refl
rule_str-plain wasm_no_exports = refl

row-bars :
    (f : Finding) (confidence : Confidence)
    → HasNoBackslash f.file
    → HasNoBackslash f.message
    → bars_from false (row f confidence) ≡ 6
unfolding row concat bars_from text
row-bars f confidence h k = ap suc (
    plain_lem (severity_str f.severity) _ (severity_str-plain f.severity)
    ∙ ap suc (
        plain_lem (text (confidence_str confidence)) _ (confidence_str-plain confidence)
        ∙ ap suc (
            plain_lem (rule_str f.rule) _ (rule_str-plain f.rule)
            ∙ ap suc (
                bars_from-md_escape f.file _ h
                ∙ plain_lem (digits 20 f.line) _ (digits-plain 20 f.line)
                ∙ ap suc (bars_from-md_escape f.message _ k)))))

-- Findings whose file and message have no backslash are all rendered as rows of the table, and each row has exactly
-- the six bars that bound its five cells: no bar in a file name or a message adds a cell.
pub each_finding-row :
    (fs : List Finding)
    → All (λ (f : Finding). HasNoBackslash f.file × HasNoBackslash f.message) fs
    → (rows : List Text) × (each_finding row fs ≡ ok rows)
      × (length rows ≡ length fs)
      × All (λ r. bars_from false r ≡ 6) rows
unfolding each_finding finding_confidence
each_finding-row [] h = ([], refl, refl, tt)
each_finding-row (f ∷ fs) ((a, b), h) =
    let (m, entry, found) = rule_from_id-rule_meta f.rule (rule_str f.rule) (inl refl) in
    let (rows, e, same, six) = each_finding-row fs h in
    let meta = entry.0 in
    (
      row f m.confidence ∷ rows,
      rw meta (rw e refl),
      ap suc same,
      (row-bars f m.confidence a b, six),
    )
