-- ===== src/Base/Words.antt =====
-- Text as a list of code points: literals, ASCII classes and case, byte lengths.
use Prim.Native.Nat.{ℕ, ◌+◌}
use Prim.Native.Char.{code}
use Prim.Native.String.{String}
use mathlib.Core.Bool.{Bool, ◌&&◌, ◌||◌}
use mathlib.Core.List.{List, [], ◌∷◌, map}
use sorseal.Base.Tests.{nat_beq, ltb, leb, if◌then◌else◌, Eq, nat_eq}
use sorseal.Base.Lists.{list_beq, list_beq_iff}

-- A Rust string: its Unicode scalar values.
abbrev pub Text : Type 0
Text = List ℕ

-- A Rust byte slice.
abbrev pub Bytes : Type 0
Bytes = List ℕ

instance abbrev pub text_eq : Eq Text
text_eq = record { same = list_beq; same_iff = list_beq_iff }

-- The code points of a literal.
unfoldable pub text : String → Text
text String.[] = []
text (String.◌∷◌ c s) = code c ∷ text s

-- The bytes that one character takes in UTF-8, and `str::len`.
unfoldable pub utf8_width : ℕ → ℕ
utf8_width c = if ltb c 0x80 then 1 else if ltb c 0x800 then 2 else if ltb c 0x10000 then 3 else 4

unfoldable pub byte_len : Text → ℕ
unfolding utf8_width
byte_len [] = 0
byte_len (c ∷ s) = utf8_width c + byte_len s

unfoldable pub is_ascii_hexdigit : ℕ → Bool
is_ascii_hexdigit c =
    (leb b'0' c && leb c b'9') || (leb b'a' c && leb c b'f') || (leb b'A' c && leb c b'F')

unfoldable pub ascii_lower : ℕ → ℕ
ascii_lower c = if leb b'A' c && leb c b'Z' then c + 32 else c

unfoldable pub to_ascii_lowercase : Text → Text
unfolding ascii_lower
to_ascii_lowercase = map ascii_lower

-- `char::is_whitespace`: the code points with the property White_Space.
unfoldable pub is_whitespace : ℕ → Bool
is_whitespace c =
    (leb 9 c && leb c 13)
    || nat_beq c 32
    || nat_beq c 0x85
    || nat_beq c 0xa0
    || nat_beq c 0x1680
    || (leb 0x2000 c && leb c 0x200a)
    || nat_beq c 0x2028
    || nat_beq c 0x2029
    || nat_beq c 0x202f
    || nat_beq c 0x205f
    || nat_beq c 0x3000

unfoldable pub trim_start : Text → Text
unfolding is_whitespace
trim_start [] = []
trim_start (c ∷ s) = let rest = trim_start s in if is_whitespace c then rest else c ∷ s

-- Puts one character before a text whose end is trimmed already.
unfoldable pub trim_cons : ℕ → Text → Text
unfolding is_whitespace
trim_cons c [] = if is_whitespace c then [] else c ∷ []
trim_cons c (d ∷ s) = c ∷ d ∷ s

unfoldable pub trim_end : Text → Text
unfolding trim_cons
trim_end [] = []
trim_end (c ∷ s) = trim_cons c (trim_end s)

unfoldable pub trim : Text → Text
unfolding trim_start trim_end
trim s = trim_end (trim_start s)
