-- ===== src/Analyze/Lexer.antt =====
-- `strip_comments_and_strings` of src/analyze.rs. At most one of its four flags is set at a time, so they are one mode;
-- a call of `chars.next()` on the next character is the order to skip it.
pub mod Segments
use sorseal.Base.{
  ℕ, zero, suc, ◌+◌, ◌≡◌, ◌≤◌, refl, ◌++◌, ◌&&◌, Bool, true, false, List, [], ◌∷◌, Option, none,
  some, arith, if◌then◌else◌, nat_beq, length, Text, head?,
}

pub data Mode : Type 0 where
  in_code line_comment block_comment in_string in_char : Mode

abbrev pub slash : ℕ
slash = b'/'

abbrev pub star : ℕ
star = b'*'

abbrev pub backslash : ℕ
backslash = 0x5c

abbrev pub quote : ℕ
quote = 0x22

abbrev pub apostrophe : ℕ
apostrophe = 0x27

abbrev pub space : ℕ
space = 0x20

-- `chars.peek() == Some(&c)`.
abbrev pub next_is : ℕ → Option ℕ → Bool
next_is c none = false
next_is c (some d) = nat_beq d c

-- What one character puts out, the mode after it, and whether the next one is skipped.
pub record Lexed : Type 0 where
  pub out : Text
  pub mode : Mode
  pub skip : Bool

abbrev pub lexed : Text → Mode → Bool → Lexed
lexed out mode skip = record { out = out; mode = mode; skip = skip }

-- Inside a literal that ends at `delimiter`.
unfoldable pub step_literal : ℕ → Mode → ℕ → Lexed
step_literal delimiter mode c =
    if nat_beq c backslash
    then lexed [] mode true
    else lexed (space ∷ []) (if nat_beq c delimiter then in_code else mode) false

unfoldable pub step_code : ℕ → Option ℕ → Lexed
step_code c next =
    if nat_beq c slash && next_is slash next
    then lexed [] line_comment false
    else if nat_beq c slash && next_is star next
    then lexed [] block_comment true
    else if nat_beq c quote
    then lexed (space ∷ []) in_string false
    else if nat_beq c apostrophe
    then lexed (space ∷ []) in_char false
    else lexed (c ∷ []) in_code false

-- One turn of the loop.
unfoldable pub step : Mode → ℕ → Option ℕ → Lexed
unfolding step_code step_literal
step line_comment c next = lexed [] line_comment false
step block_comment c next =
    if nat_beq c star && next_is slash next
    then lexed [] in_code true
    else lexed [] block_comment false
step in_string c next = step_literal quote in_string c
step in_char c next = step_literal apostrophe in_char c
step in_code c next = step_code c next

-- The loop; the flag tells that the first character is skipped.
unfoldable pub strip_from : Bool → Mode → Text → Text
unfolding step
strip_from skip mode [] = []
strip_from true mode (c ∷ s) = strip_from false mode s
strip_from false mode (c ∷ s) = let r = step mode c (head? s) in r.out ++ strip_from r.skip r.mode s

unfoldable pub strip_comments_and_strings : Text → Text
unfolding strip_from
strip_comments_and_strings line = strip_from false in_code line
