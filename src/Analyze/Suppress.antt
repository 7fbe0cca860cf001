-- ===== src/Analyze/Suppress.antt =====
-- Inline suppressions of src/analyze.rs: `inline_ignore_rules` and `apply_inline_suppressions`.
pub mod Kept
use sorseal.Base.{
  ℕ, zero, suc, ◌-◌, ◌≡◌, ◌≤◌, refl, ap, ◌++◌, ◌&&◌, ◌||◌, not, Bool, true, false, List, [], ◌∷◌,
  Option, none, some, arith, if◌then◌else◌, leb, nat_beq, ◌==◌, text_eq, any, filter, length, take,
  drop, get_elem?, map, text, Text, is_whitespace, and_then, Bool-cases, inl, inr, All,
}
use sorseal.Manifest.{is_empty}
use sorseal.Analyze.Findings.{RuleId, rule_str, Finding}

-- `str::strip_prefix`.
unfoldable pub strip_prefix : Text → Text → Option Text
strip_prefix [] s = some s
strip_prefix (c ∷ p) [] = none
strip_prefix (c ∷ p) (d ∷ s) = let rest = strip_prefix p s in if nat_beq c d then rest else none

-- The text behind the first occurrence of the marker: `find` and the slice behind it.
unfoldable pub after_marker : Text → Text → Option Text
unfolding strip_prefix
after_marker marker [] = strip_prefix marker []
after_marker marker (c ∷ s) = elim (strip_prefix marker (c ∷ s)) [
  | some rest ↦ some rest
  | none ↦ after_marker marker s
]

-- Puts a character in front of the words that follow it.
unfoldable pub push_word : Bool → ℕ → List Text → List Text
push_word true c words = [] ∷ words
push_word false c [] = (c ∷ []) ∷ []
push_word false c (w ∷ words) = (c ∷ w) ∷ words

unfoldable pub split_spaces : Text → List Text
unfolding push_word is_whitespace
split_spaces [] = [] ∷ []
split_spaces (c ∷ s) = push_word (is_whitespace c) c (split_spaces s)

-- `split_whitespace`: without the empty words.
unfoldable pub split_whitespace : Text → List Text
unfolding split_spaces
split_whitespace s = filter (λ w. not (w == [])) (split_spaces s)

unfoldable pub ascii_upper : ℕ → ℕ
ascii_upper c = if leb b'a' c && leb c b'z' then c - 32 else c

abbrev pub is_present : Option Text → Bool
is_present none = false
is_present (some s) = true

-- The rules that one word names.
unfoldable pub ignored_by : Text → List Text
unfolding text strip_prefix
ignored_by token =
    let upper = map ascii_upper token in
    if token == text "all"
    then text "all" ∷ []
    else if is_present (strip_prefix (text "SORSEAL-") upper)
    then upper ∷ []
    else []

unfoldable pub ignored_by_all : List Text → List Text
unfolding ignored_by
ignored_by_all [] = []
ignored_by_all (t ∷ ts) = ignored_by t ++ ignored_by_all ts

-- `None` for no rules.
abbrev pub some_rules : List Text → Option (List Text)
some_rules [] = none
some_rules (r ∷ rs) = some (r ∷ rs)

unfoldable pub inline_ignore_rules : Text → Option (List Text)
unfolding text after_marker split_whitespace ignored_by_all
inline_ignore_rules line =
    and_then (after_marker (text "sorseal:ignore") line)
      (λ rest. some_rules (ignored_by_all (split_whitespace rest)))

abbrev pub names_rule : RuleId → Option (List Text) → Bool
names_rule rule none = false
names_rule rule (some rules) = any (λ r. r == text "all" || r == rule_str rule) rules

-- The line above the finding's has a comment that names its rule.
unfoldable pub suppressed : List Text → Finding → Bool
suppressed lines f =
    leb 2 f.line && names_rule f.rule (and_then (get_elem? lines (f.line - 2)) inline_ignore_rules)

-- `split_off`, the loop and `extend`; `start` is at most the number of findings.
unfoldable pub apply_inline_suppressions : List Finding → ℕ → List Text → Bool → List Finding
apply_inline_suppressions findings start lines no_ignore =
    if no_ignore || is_empty lines
    then findings
    else take start findings ++ filter (λ f. not (suppressed lines f)) (drop start findings)
