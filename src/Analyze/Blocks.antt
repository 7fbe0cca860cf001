-- ===== src/Analyze/Blocks.antt =====
-- `test_block_ranges` and `split_functions` of src/analyze.rs: ranges of lines by their braces.
pub mod Extents
use sorseal.Base.{
  ℕ, zero, suc, ◌+◌, ◌-◌, ◌&&◌, ◌||◌, not, Bool, true, false, List, [], ◌∷◌, Option, none, some,
  any, filter, length, if◌then◌else◌, ltb, leb, nat_beq, ◌==◌, text_eq, text, Text, trim_start,
  contains,
}
use sorseal.Analyze.Lines.{has}
use sorseal.Analyze.Suppress.{push_word}
use sorseal.Analyze.LineRules.{Range}

-- `line.matches(c).count()`.
unfoldable pub count : ℕ → Text → ℕ
count c line = length (filter (λ d. nat_beq d c) line)

abbrev pub opening : ℕ
opening = 0x7b

abbrev pub closing : ℕ
closing = 0x7d

-- The variables of the loop of `test_block_ranges`.
pub record TestScan : Type 0 where
  pub depth : ℕ
  pub start : Option ℕ
  pub saw_open : Bool
  pub in_test : Bool

abbrev pub scan_start : TestScan
scan_start = record { depth = 0; start = none; saw_open = false; in_test = false }

-- What one turn leaves in the variables, and the range that it pushes.
abbrev pub Turn : Type 0 → Type 0
Turn State = State × Option Range

-- Whether the block has been opened, and the depth, behind a line.
unfoldable pub saw_opening : Text → Bool → Bool
saw_opening line saw_open = if ltb 0 (count opening line) then true else saw_open

unfoldable pub depth_behind : Text → ℕ → ℕ
depth_behind line depth = (depth + count opening line) - count closing line

abbrev pub closes_test : Text → ℕ → Bool → Bool
closes_test line depth saw_open = saw_opening line saw_open && nat_beq (depth_behind line depth) 0

-- The turn inside a block that began at line `s`.
unfoldable pub test_line : ℕ → Text → ℕ → ℕ → Bool → Turn TestScan
test_line i line s depth saw_open =
    let left = depth_behind line depth in
    if closes_test line depth saw_open
    then (record { depth = left; start = none; saw_open = false; in_test = false }, some (s, i + 1))
    else (
      record { depth = left; start = some s; saw_open = saw_opening line saw_open; in_test = true },
      none,
    )

-- The turn inside a block, which begins here if it has not begun.
unfoldable pub test_turn_at : ℕ → Text → TestScan → Option ℕ → Turn TestScan
test_turn_at i line st none = test_line i line i 0 false
test_turn_at i line st (some s) = test_line i line s st.depth st.saw_open

-- One turn of the loop.
unfoldable pub test_turn : ℕ → Text → TestScan → Turn TestScan
test_turn i line st =
    if has "#[cfg(test)]" line || st.in_test then test_turn_at i line st st.start else (st, none)

-- `out.push(range)`, in front of what the later turns push.
abbrev pub push_range : Option Range → List Range → List Range
push_range none later = later
push_range (some r) later = r ∷ later

module _ {State : Type 0} (turn : ℕ → Text → State → Turn State) where
  -- A loop over the lines from index `i`: the ranges that it pushes.
  unfoldable pub ranges_from : ℕ → State → List Text → List Range
  ranges_from i st [] = []
  ranges_from i st (line ∷ lines) =
      let t = turn i line st in push_range t.1 (ranges_from (suc i) t.0 lines)

unfoldable pub test_block_ranges : List Text → List Range
test_block_ranges lines = ranges_from test_turn 0 scan_start lines

-- The variables of the loop of `split_functions`.
pub record FnScan : Type 0 where
  pub depth : ℕ
  pub start : Option ℕ

abbrev pub closes_early : Text → ℕ → Bool
closes_early line depth =
    ltb 0 (count closing line) && ltb (depth + count opening line) (count closing line)

-- The turn inside a function that began at line `s`.
unfoldable pub fn_line : ℕ → Text → ℕ → ℕ → Turn FnScan
fn_line i line s depth =
    let left = depth_behind line depth in
    if closes_early line depth
    then (record { depth = depth + count opening line; start = none }, some (s, i + 1))
    else if nat_beq left 0
    then (record { depth = left; start = none }, some (s, i + 1))
    else (record { depth = left; start = some s }, none)

-- `is_alphanumeric` beyond ASCII is Unicode data, which the standard library holds.
abbrev pub Alphanumeric : Type 0
Alphanumeric = ℕ → Bool

module _ (is_alphanumeric : Alphanumeric) where
  -- `split` at the characters that are none of a word.
  unfoldable pub split_words : Text → List Text
  split_words [] = [] ∷ []
  split_words (c ∷ s) = push_word (not (is_alphanumeric c || nat_beq c b'_')) c (split_words s)

  unfoldable pub is_fn_signature : Text → Bool
  is_fn_signature line =
      let trimmed = trim_start line in
      if not (has "(" trimmed) then false else contains (text "fn") (split_words trimmed)

  unfoldable pub fn_turn_at : ℕ → Text → FnScan → Option ℕ → Turn FnScan
  fn_turn_at i line st none = if is_fn_signature line then fn_line i line i 0 else (st, none)
  fn_turn_at i line st (some s) = fn_line i line s st.depth

  -- One turn of the loop.
  unfoldable pub fn_turn : ℕ → Text → FnScan → Turn FnScan
  fn_turn i line st = fn_turn_at i line st st.start

  unfoldable pub split_functions : List Text → List Range
  split_functions lines = ranges_from fn_turn 0 (record { depth = 0; start = none }) lines
