-- ===== src/Tests/Trees.antt =====
-- The analyzer on a tree of sources.
use sorseal.Base.{
  not, ◌>>=◌, All, length, ℕ, ◌≡◌, refl, List, [], ◌∷◌, map, true, false, text, Text, Result, ok,
  ◌++◌,
}
use sorseal.Interfaces.Files.{Sha256}
use sorseal.Analyze.Findings.{Analysis, digest, Finding, missing_auth, critical}
use sorseal.Analyze.Reports.{found, missing_reentrancy_guard_report}
use sorseal.Analyze.Blocks.{Alphanumeric}
use sorseal.Analyze.Render.{bar, row, each_finding}
use sorseal.Analyze.Render.Rows.{bars_from, each_finding-row}
use sorseal.Analyze.Tree.{
  Source, file, dir, Listing, nil, entry, is_rust_source, key, analyze_tree_with,
}
use sorseal.Manifest.{is_empty}
use sorseal.Analyze.Tree.{sort_findings}
use sorseal.Analyze.Tree.Files.{rust_files, files_findings, analyze_tree_with-rust_files}
use sorseal.Analyze.Tree.Reordered.{swap}
use sorseal.Analyze.Tree.Stable.{analyze_tree_with-Reordered}

abbrev no_letters : Alphanumeric
no_letters c = false

abbrev all_bytes : Sha256
all_bytes bytes = bytes

abbrev call : Text
call = text "call_contract"

abbrev in_order : Listing
in_order = entry (text "a.rs") (file (ok call)) (entry (text "b.txt") (file (ok call)) nil)

abbrev in_other_order : Listing
in_other_order = entry (text "b.txt") (file (ok call)) (entry (text "a.rs") (file (ok call)) nil)

names :
    map is_rust_source (text "a.rs" ∷ text ".rs" ∷ text "a.rs.bak" ∷ []) ≡ true ∷ false ∷ false ∷ []
unfolding is_rust_source sorseal.Digest.Tree.ends_with text
names = refl

abbrev the_analysis : Analysis
the_analysis = record {
  ok = true;
  findings = found missing_reentrancy_guard_report (text "a.rs") 1 ∷ [];
}

analyzed :
    analyze_tree_with no_letters (text "src") (ok in_order) (text "target" ∷ []) true
    ≡ ok the_analysis
unfolding sorseal.Analyze.Blocks.count sorseal.Analyze.Blocks.saw_opening
    sorseal.Analyze.Blocks.depth_behind sorseal.Analyze.Blocks.test_line
    sorseal.Analyze.Blocks.test_turn_at sorseal.Analyze.Blocks.test_turn
    sorseal.Analyze.Blocks.ranges_from sorseal.Analyze.Blocks.test_block_ranges
    sorseal.Analyze.Blocks.fn_line sorseal.Analyze.Blocks.split_words
    sorseal.Analyze.Blocks.is_fn_signature sorseal.Analyze.Blocks.fn_turn_at
    sorseal.Analyze.Blocks.fn_turn sorseal.Analyze.Blocks.split_functions
    sorseal.Analyze.FunctionRules.as_u32 sorseal.Analyze.FunctionRules.add_u32
    sorseal.Analyze.FunctionRules.report_if sorseal.Analyze.FunctionRules.has_auth_call
    sorseal.Analyze.FunctionRules.mutates sorseal.Analyze.FunctionRules.calls_contract
    sorseal.Analyze.FunctionRules.transfers sorseal.Analyze.FunctionRules.reads_balance
    sorseal.Analyze.FunctionRules.see sorseal.Analyze.FunctionRules.panics_on_input
    sorseal.Analyze.FunctionRules.computes_unchecked sorseal.Analyze.FunctionRules.line_findings
    sorseal.Analyze.FunctionRules.scan_lines sorseal.Analyze.FunctionRules.writes_admin_key
    sorseal.Analyze.FunctionRules.rotates_key sorseal.Analyze.FunctionRules.has_token_op
    sorseal.Analyze.FunctionRules.checks_balance sorseal.Analyze.FunctionRules.uses_address
    sorseal.Analyze.FunctionRules.reads_price sorseal.Analyze.FunctionRules.guards_price
    sorseal.Analyze.FunctionRules.grants_allowance sorseal.Analyze.FunctionRules.summary_findings
    sorseal.Analyze.FunctionRules.run_function_rules sorseal.Analyze.LineRules.in_test
    sorseal.Analyze.LineRules.unguarded_call sorseal.Analyze.LineRules.hardcodes_key
    sorseal.Analyze.LineRules.uses_unsafe sorseal.Analyze.LineRules.panics_on_read
    sorseal.Analyze.LineRules.local_findings sorseal.Analyze.LineRules.run_line_rules_from
    sorseal.Analyze.LineRules.run_line_rules sorseal.Analyze.Lines.view sorseal.Analyze.Lines.has
    sorseal.Analyze.Lines.has_any sorseal.Analyze.File.push_char sorseal.Analyze.File.lines_of
    sorseal.Analyze.File.slice sorseal.Analyze.File.starts_in_test
    sorseal.Analyze.File.function_findings sorseal.Analyze.File.functions_findings
    sorseal.Analyze.File.ranges_findings sorseal.Analyze.File.rule_findings
    sorseal.Analyze.File.analyze_file is_rust_source sorseal.Analyze.Tree.is_ignored
    sorseal.Analyze.Tree.join sorseal.Analyze.Tree.walk_file key sorseal.Analyze.Tree.insert_finding
    sorseal.Analyze.Tree.sort_findings analyze_tree_with sorseal.Analyze.Tree.walk
    sorseal.Analyze.Tree.walk_node sorseal.Analyze.Lexer.step_literal
    sorseal.Analyze.Lexer.step_code sorseal.Analyze.Lexer.step sorseal.Analyze.Lexer.strip_from
    sorseal.Analyze.Lexer.strip_comments_and_strings found sorseal.Analyze.Suppress.after_marker
    sorseal.Analyze.Suppress.strip_prefix sorseal.Analyze.Suppress.push_word
    sorseal.Analyze.Suppress.apply_inline_suppressions sorseal.Digest.Tree.ends_with text
    sorseal.Base.trim_start sorseal.Base.to_ascii_lowercase sorseal.Base.ascii_lower
    sorseal.Base.is_whitespace
analyzed = refl

analyze_tree_with-Reordered_example :
    (b : Analysis) × (analyze_tree_with no_letters
        (text "src")
        (ok in_other_order)
        (text "target" ∷ [])
        true
      ≡ ok b)
    × (b.ok ≡ the_analysis.ok)
    × (map key b.findings ≡ map key the_analysis.findings)
    × (digest all_bytes b ≡ digest all_bytes the_analysis)
analyze_tree_with-Reordered_example =
    analyze_tree_with-Reordered no_letters all_bytes (text "src") (text "target" ∷ []) true in_order
      in_other_order the_analysis
      (swap (text "a.rs") (text "b.txt") (file (ok call)) (file (ok call)) nil) analyzed

-- A file name with a bar in it.
abbrev odd_finding : Finding
odd_finding = record {
  rule = missing_auth;
  severity = critical;
  message = b'm' ∷ [];
  file = b'a' ∷ bar ∷ b'b' ∷ [];
  line = 3;
  remediation = [];
}

each_finding-row_example :
    (rows : List Text) × (each_finding row (odd_finding ∷ []) ≡ ok rows)
    × (length rows ≡ 1)
    × All (λ r. bars_from false r ≡ 6) rows
each_finding-row_example =
    each_finding-row (odd_finding ∷ []) (((refl, (refl, (refl, tt))), (refl, tt)), tt)

analyze_tree_with-rust_files_example :
    analyze_tree_with no_letters (text "src") (ok in_order) (text "target" ∷ []) true ≡ (
      rust_files (text "src") (text "target" ∷ []) [] in_order >>= λ fs. ok (record {
        ok = not (is_empty fs);
        findings = sort_findings (files_findings no_letters true fs);
      }))
analyze_tree_with-rust_files_example =
    analyze_tree_with-rust_files no_letters true (text "src") (text "target" ∷ []) in_order
