-- ===== src/Analyze/File.antt =====
-- `analyze_file` of src/analyze.rs: the rules on one file.
pub mod Places
pub mod Within
use sorseal.Base.{
  ℕ, ◌+◌, ◌-◌, ◌++◌, ◌&&◌, Bool, true, false, List, [], ◌∷◌, Option, none, some, any, map, length,
  take, drop, min, if◌then◌else◌, ltb, leb, nat_beq, head?, Text,
}
use sorseal.Analyze.Findings.{Finding}
use sorseal.Analyze.Suppress.{apply_inline_suppressions}
use sorseal.Analyze.Lines.{Line, view}
use sorseal.Analyze.FunctionRules.{as_u32, add_u32, run_function_rules}
use sorseal.Analyze.LineRules.{Range, run_line_rules}
use sorseal.Analyze.Blocks.{Alphanumeric, test_block_ranges, split_functions}

-- Puts a character in front of the first line, which it begins if there is none.
unfoldable pub push_char : ℕ → List Text → List Text
push_char c [] = (c ∷ []) ∷ []
push_char c (line ∷ lines) = (c ∷ line) ∷ lines

-- `str::lines`: a line ends at a line feed, with a carriage return in front of it or without.
unfoldable pub lines_of : Text → List Text
unfolding push_char
lines_of [] = []
lines_of (c ∷ s) =
    let later = lines_of s in
    if nat_beq c 10
    then [] ∷ later
    else if nat_beq c 13 && next_feeds s
    then later
    else push_char c later
  where
    next_feeds : Text → Bool
    next_feeds [] = false
    next_feeds (d ∷ t) = nat_beq d 10

-- `&lines[start..end]`, for a range within the lines.
unfoldable pub slice : Range → List Line → List Line
slice (start, end) lines = take (end - start) (drop start lines)

-- The function begins in a test block.
unfoldable pub starts_in_test : List Range → ℕ → Bool
starts_in_test ranges start = any (λ (r : Range). leb r.0 start && ltb start r.1) ranges

-- What one function adds.
unfoldable pub function_findings : List Line → List Range → Text → Range → List Finding
unfolding slice starts_in_test
function_findings lines test_ranges rel (start, stop) =
    let ls = slice (start, min stop (length lines)) lines in
    if starts_in_test test_ranges start
    then []
    else run_function_rules ls rel (add_u32 (as_u32 start) 1)
      ++ run_line_rules ls rel (some test_ranges) (as_u32 start)

unfoldable pub functions_findings : List Line → List Range → Text → List Range → List Finding
unfolding function_findings
functions_findings lines test_ranges rel [] = []
functions_findings lines test_ranges rel (r ∷ rs) =
    function_findings lines test_ranges rel r ++ functions_findings lines test_ranges rel rs

-- With no function the rules on lines run on the whole file, test blocks included.
unfoldable pub ranges_findings : Text → List Line → List Range → List Range → List Finding
unfolding functions_findings
ranges_findings rel lines test_ranges [] = run_line_rules lines rel none 0
ranges_findings rel lines test_ranges (r ∷ rs) = functions_findings lines test_ranges rel (r ∷ rs)

-- The findings of the file before suppressions.
unfoldable pub rule_findings : Alphanumeric → Text → List Line → List Finding
unfolding ranges_findings
rule_findings ia rel lines =
    let stripped = map (λ (l : Line). l.stripped) lines in
    ranges_findings rel lines (test_block_ranges stripped) (split_functions ia stripped)

-- The findings behind the file, from those before it.
unfoldable pub analyze_file : Alphanumeric → Text → Text → Bool → List Finding → List Finding
unfolding rule_findings apply_inline_suppressions lines_of
analyze_file ia rel contents no_ignore findings =
    let raw = lines_of contents in
    apply_inline_suppressions (findings ++ rule_findings ia rel (map view raw)) (length findings)
      raw no_ignore
