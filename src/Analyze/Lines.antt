-- ===== src/Analyze/Lines.antt =====
-- The three views of a source line that src/analyze.rs computes once, and the substring tests on them.
pub mod Prefix
pub mod Contains
use sorseal.Base.{Bool, List, any, text, Text, to_ascii_lowercase}
use Prim.Native.String.{String}
use sorseal.Analyze.Suppress.{after_marker, is_present}
use sorseal.Analyze.Lexer.{strip_comments_and_strings}

-- One entry of `lines`, of `stripped` and of `lowered`. The rules take slices of the three with the same ends.
pub record Line : Type 0 where
  pub raw : Text
  pub stripped : Text
  pub lowered : Text

unfoldable pub view : Text → Line
unfolding strip_comments_and_strings to_ascii_lowercase
view line = record {
  raw = line;
  stripped = strip_comments_and_strings line;
  lowered = to_ascii_lowercase (strip_comments_and_strings line);
}

-- `str::contains`.
unfoldable pub has : String → Text → Bool
unfolding after_marker text
has needle line = is_present (after_marker (text needle) line)

-- `a.contains(…) || a.contains(…) || …`.
unfoldable pub has_any : List String → Text → Bool
unfolding has
has_any needles line = any (λ needle. has needle line) needles
