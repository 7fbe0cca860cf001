-- ===== src/Tests/Rules.antt =====
-- The analyzer's rules on lines and files.
use sorseal.Base.{
  ℕ, ◌≡◌, ◌≤◌, ◌<◌, refl, inl, ◌&&◌, ◌||◌, Bool, true, false, List, [], ◌∷◌, ◌++◌, Option, none,
  some, All, length, take, drop, text, Text, map, leb, subst, sym, to_ascii_lowercase, arith,
}
use sorseal.Analyze.Findings.{
  missing_auth, rule_str, Finding, RuleId, unchecked_env_caller, reentrancy, unchecked_arithmetic,
}
use sorseal.Analyze.Lexer.{strip_comments_and_strings}
use sorseal.Analyze.Lexer.Segments.{
  plain, escaped, Segment, bare, str, block, written, shown, line_end,
  strip_comments_and_strings-written,
}
use sorseal.Analyze.Lines.{view, has}
use sorseal.Analyze.FunctionRules.{run_function_rules, mutates, calls_contract}
use sorseal.Analyze.Blocks.{test_block_ranges, split_functions, is_fn_signature}
use sorseal.Analyze.Blocks.Extents.{
  Extents, StartsAt, test_block_ranges-Extents, split_functions-Extents,
}
use sorseal.Analyze.File.{lines_of, analyze_file}
use sorseal.Analyze.File.Places.{u32_end, InPlace}
use sorseal.Analyze.File.Within.{analyze_file-InPlace}
use sorseal.Analyze.RuleTable.{RuleMeta}
use sorseal.Analyze.Explain.{rule_from_id}
use sorseal.Analyze.Explain.Entries.{IsEntry, rule_from_id-rule_meta}

abbrev is_ascii_alphanumeric : ℕ → Bool
is_ascii_alphanumeric c =
    (leb b'0' c && leb c b'9') || (leb b'a' c && leb c b'z') || (leb b'A' c && leb c b'Z')

-- A line with a string, an escaped quote in it, a block comment and a line comment.
abbrev a_line : List Segment
a_line =
    bare (b'f' ∷ b'(' ∷ [])
    ∷ str (plain b'a' ∷ escaped 0x22 ∷ [])
    ∷ block (b'*' ∷ b'b' ∷ [])
    ∷ bare (b')' ∷ [])
    ∷ []

strip_comments_and_strings-written_example :
    strip_comments_and_strings (written a_line (line_end (some (text "x")))) ≡ shown a_line
strip_comments_and_strings-written_example =
    strip_comments_and_strings-written a_line (some (text "x"))
      ((refl, (refl, tt)), (((refl, refl), (tt, tt)), (refl, ((refl, tt), tt))))

-- A lifetime opens what the lexer takes for a character, up to the end of the line.
lifetime_hides_the_line :
    strip_comments_and_strings (text "fn f<'a>(x: u8)") ≡ text "fn f<          "
unfolding text strip_comments_and_strings
lifetime_hides_the_line = refl

abbrev rule_and_line : Finding → RuleId × ℕ
rule_and_line f = (f.rule, f.line)

abbrev a_function : List Text
a_function =
    text "pub fn pay(env: Env, to: Address, amount: i128) {"
    ∷ text "    env.storage().persistent().set(&KEY, &(amount - 1));"
    ∷ text "    env.invoke_contract(&to);"
    ∷ text "}"
    ∷ []

function_is_reported :
    map rule_and_line (run_function_rules (map view a_function) (text "lib.rs") 1)
    ≡ (unchecked_arithmetic, 2)
      ∷ (missing_auth, 1)
      ∷ (reentrancy, 1)
      ∷ (unchecked_env_caller, 1)
      ∷ []
unfolding run_function_rules sorseal.Analyze.FunctionRules.scan_lines
    sorseal.Analyze.FunctionRules.line_findings sorseal.Analyze.FunctionRules.report_if
    sorseal.Analyze.FunctionRules.panics_on_input sorseal.Analyze.FunctionRules.computes_unchecked
    sorseal.Analyze.FunctionRules.summary_findings sorseal.Analyze.FunctionRules.add_u32
    sorseal.Analyze.FunctionRules.see sorseal.Analyze.FunctionRules.as_u32
    sorseal.Analyze.FunctionRules.has_auth_call sorseal.Analyze.FunctionRules.transfers
    sorseal.Analyze.FunctionRules.writes_admin_key sorseal.Analyze.FunctionRules.has_token_op
    sorseal.Analyze.FunctionRules.checks_balance sorseal.Analyze.FunctionRules.grants_allowance
    sorseal.Analyze.FunctionRules.guards_price sorseal.Analyze.FunctionRules.reads_balance
    sorseal.Analyze.FunctionRules.reads_price sorseal.Analyze.FunctionRules.rotates_key
    sorseal.Analyze.FunctionRules.uses_address has view mutates calls_contract text
    to_ascii_lowercase strip_comments_and_strings sorseal.Analyze.Lines.has_any
    sorseal.Analyze.Reports.found sorseal.Analyze.Lexer.step sorseal.Analyze.Lexer.step_code
    sorseal.Analyze.Lexer.step_literal sorseal.Analyze.Lexer.strip_from
    sorseal.Analyze.Suppress.after_marker sorseal.Analyze.Suppress.strip_prefix
    sorseal.Base.ascii_lower
function_is_reported = refl

abbrev a_file : List Text
a_file =
    text "use x;" ∷ a_function
    ++ (text "#[cfg(test)]" ∷ text "mod tests {" ∷ text "fn t() {" ∷ text "}" ∷ text "}" ∷ [])

functions_of_file : split_functions is_ascii_alphanumeric a_file ≡ (1, 5) ∷ (7, 9) ∷ []
unfolding split_functions sorseal.Analyze.Blocks.ranges_from sorseal.Analyze.Blocks.fn_turn
    sorseal.Analyze.Blocks.fn_turn_at is_fn_signature has sorseal.Base.trim_start
    sorseal.Analyze.Blocks.split_words sorseal.Analyze.Suppress.push_word
    sorseal.Analyze.Blocks.fn_line sorseal.Analyze.Blocks.count sorseal.Analyze.Blocks.depth_behind
functions_of_file = refl

tests_of_file : test_block_ranges a_file ≡ (5, 10) ∷ []
unfolding test_block_ranges sorseal.Analyze.Blocks.ranges_from sorseal.Analyze.Blocks.test_turn has
    sorseal.Analyze.Blocks.test_turn_at sorseal.Analyze.Blocks.test_line
    sorseal.Analyze.Blocks.saw_opening sorseal.Analyze.Blocks.count
    sorseal.Analyze.Blocks.depth_behind
tests_of_file = refl

-- A signature over several lines is taken for a function of one line, and the body is in none.
long_signature :
    split_functions is_ascii_alphanumeric
      (text "fn pay(" ∷ text "to: Address" ∷ text ") {" ∷ text "x();" ∷ text "}" ∷ [])
    ≡ (0, 1) ∷ []
unfolding split_functions sorseal.Analyze.Blocks.ranges_from sorseal.Analyze.Blocks.fn_turn
    sorseal.Analyze.Blocks.fn_turn_at is_fn_signature has sorseal.Base.trim_start
    sorseal.Analyze.Blocks.split_words sorseal.Analyze.Suppress.push_word
    sorseal.Analyze.Blocks.fn_line sorseal.Analyze.Blocks.count sorseal.Analyze.Blocks.depth_behind
long_signature = refl

test_block_ranges-Extents_example :
    Extents (StartsAt (has "#[cfg(test)]") a_file) 0 (length a_file) (test_block_ranges a_file)
test_block_ranges-Extents_example = test_block_ranges-Extents a_file

split_functions-Extents_example :
    Extents
      (StartsAt (is_fn_signature is_ascii_alphanumeric) a_file)
      0
      (length a_file)
      (split_functions is_ascii_alphanumeric a_file)
split_functions-Extents_example = split_functions-Extents is_ascii_alphanumeric a_file

abbrev contents : Text
contents = text "fn f(amount: i128) {" ++ (10 ∷ (text "amount + 1" ++ (13 ∷ 10 ∷ text "}")))

contents_lines : lines_of contents ≡ text "fn f(amount: i128) {" ∷ text "amount + 1" ∷ text "}" ∷ []
unfolding lines_of text
contents_lines = refl

few_lines : length (lines_of contents) < u32_end
few_lines = subst (λ ls. length ls < u32_end) (sym contents_lines) (omega arith)

analyze_file-InPlace_example :
    let added = analyze_file is_ascii_alphanumeric (text "a.rs") contents false [] in
    (take 0 added ≡ []) × All (InPlace (text "a.rs") 0 (length (lines_of contents))) (drop 0 added)
analyze_file-InPlace_example =
    analyze_file-InPlace is_ascii_alphanumeric (text "a.rs") contents false [] few_lines

same_id : to_ascii_lowercase (text "sorseal-101") ≡ to_ascii_lowercase (rule_str missing_auth)
unfolding rule_str text to_ascii_lowercase
same_id = refl

rule_from_id-rule_meta_example :
    (m : RuleMeta) × IsEntry missing_auth m × (rule_from_id (text "sorseal-101") ≡ some m)
rule_from_id-rule_meta_example =
    rule_from_id-rule_meta missing_auth (text "sorseal-101") (inl same_id)
