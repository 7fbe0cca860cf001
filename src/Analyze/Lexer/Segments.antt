-- ===== src/Analyze/Lexer/Segments.antt =====
-- Lines as they are written, and what the stripping of src/analyze.rs leaves of them.
use sorseal.Base.{
  ℕ, ◌≡◌, refl, ap, ◌∙◌, ◌++◌, ◌&&◌, not, Bool, true, false, List, [], ◌∷◌, Option, none, some,
  arith, nat_beq, Text, head?, All, sym, Bool-cases, inl, inr,
}
use mathlib.Core.List.{append_assoc, append-nil}
use sorseal.Analyze.Lexer.{
  Mode, in_code, line_comment, block_comment, in_string, in_char, slash, star, backslash, quote,
  apostrophe, space, lexed, step_literal, step_code, step, strip_from, strip_comments_and_strings,
}

-- A character of a literal: itself, or any character behind a backslash.
pub data Piece : Type 0 where
  plain : ℕ → Piece
  escaped : ℕ → Piece

-- Code without quotes and slashes, a string or character literal, a block comment.
pub data Segment : Type 0 where
  bare : Text → Segment
  str : List Piece → Segment
  chr : List Piece → Segment
  block : Text → Segment

abbrev pub written_pieces : List Piece → Text
written_pieces [] = []
written_pieces (plain c ∷ ps) = c ∷ written_pieces ps
written_pieces (escaped c ∷ ps) = backslash ∷ c ∷ written_pieces ps

-- A blank for each piece that is not escaped.
abbrev pub blank_pieces : List Piece → Text
blank_pieces [] = []
blank_pieces (plain c ∷ ps) = space ∷ blank_pieces ps
blank_pieces (escaped c ∷ ps) = blank_pieces ps

abbrev pub written : List Segment → Text → Text
written [] end = end
written (bare s ∷ segs) end = s ++ written segs end
written (str ps ∷ segs) end = quote ∷ (written_pieces ps ++ (quote ∷ written segs end))
written (chr ps ∷ segs) end = apostrophe ∷ (written_pieces ps ++ (apostrophe ∷ written segs end))
written (block s ∷ segs) end = slash ∷ star ∷ (s ++ (star ∷ slash ∷ written segs end))

abbrev pub shown : List Segment → Text
shown [] = []
shown (bare s ∷ segs) = s ++ shown segs
shown (str ps ∷ segs) = space ∷ (blank_pieces ps ++ (space ∷ shown segs))
shown (chr ps ∷ segs) = space ∷ (blank_pieces ps ++ (space ∷ shown segs))
shown (block s ∷ segs) = shown segs

-- Neither a quote, nor an apostrophe, nor a slash.
abbrev pub is_bare : ℕ → Bool
is_bare c = not (nat_beq c quote) && (not (nat_beq c apostrophe) && not (nat_beq c slash))

-- Neither the delimiter nor a backslash.
abbrev pub FitsPiece : ℕ → Piece → Type 0
FitsPiece delimiter (plain c) = (nat_beq c delimiter ≡ false) × (nat_beq c backslash ≡ false)
FitsPiece delimiter (escaped c) = Unit

-- No star before a slash.
abbrev pub no_close : Text → Bool
no_close [] = true
no_close (c ∷ []) = true
no_close (c ∷ d ∷ s) = not (nat_beq c star && nat_beq d slash) && no_close (d ∷ s)

abbrev pub Fits : Segment → Type 0
Fits (bare s) = All (λ c. is_bare c ≡ true) s
Fits (str ps) = All (FitsPiece quote) ps
Fits (chr ps) = All (FitsPiece apostrophe) ps
Fits (block s) = no_close s ≡ true

-- Nothing, or a line comment.
abbrev pub line_end : Option Text → Text
line_end none = []
line_end (some s) = slash ∷ slash ∷ s

step_code-bare :
    (c : ℕ) (next : Option ℕ) → is_bare c ≡ true → step_code c next ≡ lexed (c ∷ []) in_code false
unfolding step_code
step_code-bare c next h = ground arith

bare_lem :
    (s rest : Text)
    → All (λ c. is_bare c ≡ true) s
    → strip_from false in_code (s ++ rest) ≡ s ++ strip_from false in_code rest
unfolding strip_from
bare_lem [] rest h = refl
bare_lem (c ∷ s) rest h =
    rw (step_code-bare c (head? (s ++ rest)) h.0) (ap (◌∷◌ c) (bare_lem s rest h.1))

module _ (delimiter : ℕ) (mode : Mode) where
  step_literal-plain :
      (c : ℕ)
      → FitsPiece delimiter (plain c)
      → step_literal delimiter mode c ≡ lexed (space ∷ []) mode false
  unfolding step_literal
  step_literal-plain c h = ground arith

  step_literal-end :
      nat_beq delimiter backslash ≡ false
      → step_literal delimiter mode delimiter ≡ lexed (space ∷ []) in_code false
  unfolding step_literal
  step_literal-end h = ground arith

  step_literal-escape : step_literal delimiter mode backslash ≡ lexed [] mode true
  unfolding step_literal
  step_literal-escape = refl

  literal_lem :
      ((c : ℕ) (next : Option ℕ) → step mode c next ≡ step_literal delimiter mode c)
      → nat_beq delimiter backslash ≡ false
      → (ps : List Piece) (rest : Text) → All (FitsPiece delimiter) ps
      → strip_from false mode (written_pieces ps ++ (delimiter ∷ rest))
        ≡ blank_pieces ps ++ (space ∷ strip_from false in_code rest)
  unfolding strip_from
  literal_lem literal d [] rest h =
      rw (literal delimiter (head? rest)) (rw (step_literal-end d) refl)
  literal_lem literal d (plain c ∷ ps) rest h =
      rw (literal c (head? (written_pieces ps ++ (delimiter ∷ rest))))
        (rw (step_literal-plain c h.0) (ap (◌∷◌ space) (literal_lem literal d ps rest h.1)))
  literal_lem literal d (escaped c ∷ ps) rest h =
      rw (literal backslash (some c) ∙ step_literal-escape) (literal_lem literal d ps rest h.1)

block_lem :
    (s rest : Text)
    → no_close s ≡ true
    → strip_from false block_comment (s ++ (star ∷ slash ∷ rest)) ≡ strip_from false in_code rest
unfolding strip_from
block_lem [] rest h = refl
block_lem (c ∷ []) rest h = elim (Bool-cases (nat_beq c star)) [
  | inl e ↦ rw e refl
  | inr e ↦ rw e refl
]
block_lem (c ∷ d ∷ s) rest h = elim (Bool-cases (nat_beq c star && nat_beq d slash)) [
  | inl e ↦ absurd (ground arith)
  | inr e ↦ rw e (block_lem (d ∷ s) rest (ground arith))
]

comment_lem : (s : Text) → strip_from false line_comment s ≡ []
unfolding strip_from
comment_lem [] = refl
comment_lem (c ∷ s) = comment_lem s

strip_from-quote :
    (s : Text) → strip_from false in_code (quote ∷ s) ≡ space ∷ strip_from false in_string s
unfolding strip_from
strip_from-quote s = refl

strip_from-apostrophe :
    (s : Text) → strip_from false in_code (apostrophe ∷ s) ≡ space ∷ strip_from false in_char s
unfolding strip_from
strip_from-apostrophe s = refl

strip_from-open :
    (s : Text) → strip_from false in_code (slash ∷ star ∷ s) ≡ strip_from false block_comment s
unfolding strip_from
strip_from-open s = refl

strip_from-comment : (s : Text) → strip_from false in_code (slash ∷ slash ∷ s) ≡ []
unfolding strip_from
strip_from-comment s = comment_lem (slash ∷ s)

str_lem :
    (ps : List Piece) (rest : Text)
    → All (FitsPiece quote) ps
    → strip_from false in_string (written_pieces ps ++ (quote ∷ rest))
      ≡ blank_pieces ps ++ (space ∷ strip_from false in_code rest)
unfolding step
str_lem ps rest h = literal_lem quote in_string (λ c next. refl) refl ps rest h

chr_lem :
    (ps : List Piece) (rest : Text)
    → All (FitsPiece apostrophe) ps
    → strip_from false in_char (written_pieces ps ++ (apostrophe ∷ rest))
      ≡ blank_pieces ps ++ (space ∷ strip_from false in_code rest)
unfolding step
chr_lem ps rest h = literal_lem apostrophe in_char (λ c next. refl) refl ps rest h

blank_assoc :
    (ps : List Piece) (s t : Text)
    → blank_pieces ps ++ (space ∷ (s ++ t)) ≡ (blank_pieces ps ++ (space ∷ s)) ++ t
blank_assoc ps s t = sym (append_assoc (blank_pieces ps) (space ∷ s) t)

segments_lem :
    (segs : List Segment) (end : Text)
    → All Fits segs
    → strip_from false in_code (written segs end) ≡ shown segs ++ strip_from false in_code end
segments_lem [] end h = refl
segments_lem (bare s ∷ segs) end h =
    bare_lem s (written segs end) h.0
    ∙ ap (◌++◌ s) (segments_lem segs end h.1)
    ∙ sym (append_assoc s (shown segs) _)
segments_lem (str ps ∷ segs) end h =
    strip_from-quote _
    ∙ ap (◌∷◌ space) (
        str_lem ps (written segs end) h.0
        ∙ ap (λ r. blank_pieces ps ++ (space ∷ r)) (segments_lem segs end h.1)
        ∙ blank_assoc ps (shown segs) _)
segments_lem (chr ps ∷ segs) end h =
    strip_from-apostrophe _
    ∙ ap (◌∷◌ space) (
        chr_lem ps (written segs end) h.0
        ∙ ap (λ r. blank_pieces ps ++ (space ∷ r)) (segments_lem segs end h.1)
        ∙ blank_assoc ps (shown segs) _)
segments_lem (block s ∷ segs) end h =
    strip_from-open _ ∙ block_lem s (written segs end) h.0 ∙ segments_lem segs end h.1

line_end_lem : (comment : Option Text) → strip_from false in_code (line_end comment) ≡ []
unfolding strip_from
line_end_lem none = refl
line_end_lem (some s) = comment_lem (slash ∷ s)

-- A line of code without quotes, apostrophes and slashes, of string and character literals and of block comments, each of
-- them closed, with or without a line comment behind: what is left is this code as it is, and blanks where the
-- literals were.
pub strip_comments_and_strings-written :
    (segs : List Segment) (comment : Option Text)
    → All Fits segs
    → strip_comments_and_strings (written segs (line_end comment)) ≡ shown segs
unfolding strip_comments_and_strings
strip_comments_and_strings-written segs comment h =
    segments_lem segs (line_end comment) h
    ∙ ap (◌++◌ (shown segs)) (line_end_lem comment)
    ∙ append-nil (shown segs)
