-- ===== src/Tests/Gates.antt =====
-- The exit code of an analysis of one artifact, of its wasm file too.
use sorseal.Base.{
  ℕ, ◌≡◌, ◌↔◌, refl, true, false, List, [], ◌∷◌, map, none, some, filter, All, Text, ok,
}
use sorseal.Manifest.{Artifact}
use sorseal.Analyze.Findings.{Severity, high, Analysis}
use sorseal.Analyze.Blocks.{Alphanumeric}
use sorseal.Analyze.Tree.{file, nil, entry}
use sorseal.Analyze.Command.{AnalyzeArgs, Workspace, is_selected, analyze_command}
use sorseal.Analyze.Command.Passed.{Passes}
use sorseal.Analyze.Command.Code.{analyze_command-Passes}

abbrev no_alphabet : Alphanumeric
no_alphabet c = false

abbrev high_gate : AnalyzeArgs
high_gate = record {
  artifact = none;
  fail_on = some high;
  no_ignore = false;
  wasm = true;
  ignore = [];
}

-- One source without a line, and a file that is no wasm module.
abbrev empty_source : Workspace
empty_source = record {
  sources = λ root. ok (entry (b'a' ∷ b'.' ∷ b'r' ∷ b's' ∷ []) (file (ok [])) nil);
  read = λ path. ok [];
}

abbrev the_artifact : Artifact
the_artifact = record {
  id = b'c' ∷ [];
  build_command = [];
  wasm_path = b'w' ∷ [];
  source_root = b's' ∷ [];
}

abbrev nothing_found : Analysis
nothing_found = record { ok = true; findings = [] }

abbrev exit_code : ℕ
exit_code = 0

gate_passes :
    analyze_command no_alphabet high_gate empty_source (the_artifact ∷ [])
    ≡ ok ((the_artifact.id, nothing_found) ∷ [], exit_code)
unfolding analyze_command is_selected sorseal.Analyze.Command.analyze_each
    sorseal.Analyze.Command.analyze_artifact sorseal.Analyze.Command.scanned_findings
    sorseal.WasmScan.scan sorseal.WasmScan.is_wasm_module sorseal.Analyze.Command.max_code
    sorseal.Analyze.Command.gate_code sorseal.Analyze.Findings.has_findings_at_or_above
    sorseal.Analyze.Blocks.count sorseal.Analyze.Blocks.saw_opening
    sorseal.Analyze.Blocks.depth_behind sorseal.Analyze.Blocks.test_line
    sorseal.Analyze.Blocks.test_turn_at sorseal.Analyze.Blocks.test_turn
    sorseal.Analyze.Blocks.ranges_from sorseal.Analyze.Blocks.test_block_ranges
    sorseal.Analyze.Blocks.fn_line sorseal.Analyze.Blocks.split_words
    sorseal.Analyze.Blocks.is_fn_signature sorseal.Analyze.Blocks.fn_turn_at
    sorseal.Analyze.Blocks.fn_turn sorseal.Analyze.Blocks.split_functions
    sorseal.Analyze.FunctionRules.as_u32 sorseal.Analyze.FunctionRules.add_u32
    sorseal.Analyze.FunctionRules.report_if sorseal.Analyze.FunctionRules.has_auth_call
    sorseal.Analyze.FunctionRules.mutates sorseal.Analyze.FunctionRules.calls_contract
    sorseal.Analyze.FunctionRules.transfers sorseal.Analyze.FunctionRules.reads_balance
    sorseal.Analyze.FunctionRules.see sorseal.Analyze.FunctionRules.panics_on_input
    sorseal.Analyze.FunctionRules.computes_unchecked sorseal.Analyze.FunctionRules.line_findings
    sorseal.Analyze.FunctionRules.scan_lines sorseal.Analyze.FunctionRules.writes_admin_key
    sorseal.Analyze.FunctionRules.rotates_key sorseal.Analyze.FunctionRules.has_token_op
    sorseal.Analyze.FunctionRules.checks_balance sorseal.Analyze.FunctionRules.uses_address
    sorseal.Analyze.FunctionRules.reads_price sorseal.Analyze.FunctionRules.guards_price
    sorseal.Analyze.FunctionRules.grants_allowance sorseal.Analyze.FunctionRules.summary_findings
    sorseal.Analyze.FunctionRules.run_function_rules sorseal.Analyze.LineRules.in_test
    sorseal.Analyze.LineRules.unguarded_call sorseal.Analyze.LineRules.hardcodes_key
    sorseal.Analyze.LineRules.uses_unsafe sorseal.Analyze.LineRules.panics_on_read
    sorseal.Analyze.LineRules.local_findings sorseal.Analyze.LineRules.run_line_rules_from
    sorseal.Analyze.LineRules.run_line_rules sorseal.Analyze.Lines.view sorseal.Analyze.Lines.has
    sorseal.Analyze.Lines.has_any sorseal.Analyze.File.push_char sorseal.Analyze.File.lines_of
    sorseal.Analyze.File.slice sorseal.Analyze.File.starts_in_test
    sorseal.Analyze.File.function_findings sorseal.Analyze.File.functions_findings
    sorseal.Analyze.File.ranges_findings sorseal.Analyze.File.rule_findings
    sorseal.Analyze.File.analyze_file sorseal.Analyze.Tree.is_rust_source
    sorseal.Analyze.Tree.is_ignored sorseal.Analyze.Tree.join sorseal.Analyze.Tree.walk_file
    sorseal.Analyze.Tree.key sorseal.Analyze.Tree.insert_finding sorseal.Analyze.Tree.sort_findings
    sorseal.Analyze.Tree.analyze_tree_with sorseal.Analyze.Tree.walk sorseal.Analyze.Tree.walk_node
    sorseal.Analyze.Lexer.step_literal sorseal.Analyze.Lexer.step_code sorseal.Analyze.Lexer.step
    sorseal.Analyze.Lexer.strip_from sorseal.Analyze.Lexer.strip_comments_and_strings
    sorseal.Analyze.Reports.found sorseal.Analyze.Suppress.after_marker
    sorseal.Analyze.Suppress.strip_prefix sorseal.Analyze.Suppress.push_word
    sorseal.Analyze.Suppress.apply_inline_suppressions sorseal.Digest.Tree.ends_with
    sorseal.Base.text sorseal.Base.trim_start sorseal.Base.to_ascii_lowercase
    sorseal.Base.ascii_lower sorseal.Base.is_whitespace
gate_passes = refl

analyze_command-Passes_example :
    (map (λ (r : Text × Analysis). r.0) ((the_artifact.id, nothing_found) ∷ [])
      ≡ map (λ (a : Artifact). a.id) (filter (is_selected none) (the_artifact ∷ [])))
    × ((exit_code ≡ 0)
        ↔ All
            (Passes no_alphabet high_gate empty_source high)
            (filter (is_selected none) (the_artifact ∷ [])))
analyze_command-Passes_example =
    analyze_command-Passes no_alphabet high_gate empty_source high (the_artifact ∷ [])
      {found = (the_artifact.id, nothing_found) ∷ []} {code = exit_code} refl gate_passes
