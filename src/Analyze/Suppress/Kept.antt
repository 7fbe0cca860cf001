-- ===== src/Analyze/Suppress/Kept.antt =====
-- What the inline suppressions of src/analyze.rs keep and what they remove.
use sorseal.Base.{
  ℕ, zero, suc, ◌-◌, ◌≡◌, ◌≢◌, ◌↔◌, ◌≤◌, refl, ap, sym, ◌∙◌, ◌++◌, not, Bool, true, false, List, [],
  ◌∷◌, none, some, arith, leb, filter, length, take, drop, get_elem?, text, Text, Bool-cases,
  Option-cases, inl, inr, All, Mem, nat_beq, nat_beq_iff,
}
use sorseal.Analyze.Findings.{
  RuleId, rule_str, Finding, missing_auth, reentrancy, unchecked_arithmetic, panic_on_input,
  unchecked_transfer, missing_reentrancy_guard, hardcoded_storage_key, unsafe_raw_pointer,
  panic_on_storage_read, admin_key_never_rotated, missing_token_balance_check, unchecked_env_caller,
  oracle_price_feed, flash_loan_approve, wasm_unreachable_export, wasm_no_exports,
}
use sorseal.Analyze.Suppress.{
  strip_prefix, after_marker, inline_ignore_rules, names_rule, suppressed,
  apply_inline_suppressions,
}
use sorseal.Analyze.Lines.Contains.{Contains, after_marker-Contains}

-- The line above the finding's, where there is one.
abbrev pub LineAbove : List Text → Finding → Text → Type 0
LineAbove lines f above = (2 ≤ f.line) × (get_elem? lines (f.line - 2) ≡ some above)

-- No line above it has the marker.
abbrev pub Unmarked : List Text → Finding → Type 0
Unmarked lines f =
    (above : Text) → LineAbove lines f above → ¬ Contains (text "sorseal:ignore") above

-- The line above it ends in a suppression of its rule, behind code without the letter that the marker begins with.
abbrev pub Marked : List Text → Finding → Type 0
Marked lines f =
    (code : Text) × All (λ (c : ℕ). c ≢ b's') code
    × LineAbove lines f (code ++ (text "sorseal:ignore " ++ rule_str f.rule))

strip_prefix_other :
    (c d : ℕ) (p s : Text) → nat_beq c d ≡ false → strip_prefix (c ∷ p) (d ∷ s) ≡ none
unfolding strip_prefix
strip_prefix_other c d p s h = rw h refl

-- A marker that begins with this letter is found behind text without it.
after_marker-append :
    (c : ℕ) (marker code rest : Text)
    → All (λ (d : ℕ). d ≢ c) code
    → after_marker (c ∷ marker) (code ++ rest) ≡ after_marker (c ∷ marker) rest
unfolding after_marker
after_marker-append c marker [] rest h = refl
after_marker-append c marker (d ∷ code) rest h = elim (Bool-cases (nat_beq c d)) [
  | inl same ↦ absurd (h.0 (sym ((nat_beq_iff c d).0 same)))
  | inr other ↦
      rw (strip_prefix_other c d marker (code ++ rest) other, after_marker)
        (after_marker-append c marker code rest h.1)
]

names_rule_lem :
    (rule : RuleId)
    → names_rule rule (inline_ignore_rules (text "sorseal:ignore " ++ rule_str rule)) ≡ true
unfolding inline_ignore_rules after_marker sorseal.Analyze.Suppress.ascii_upper rule_str
names_rule_lem missing_auth = refl
names_rule_lem reentrancy = refl
names_rule_lem unchecked_arithmetic = refl
names_rule_lem panic_on_input = refl
names_rule_lem unchecked_transfer = refl
names_rule_lem missing_reentrancy_guard = refl
names_rule_lem hardcoded_storage_key = refl
names_rule_lem unsafe_raw_pointer = refl
names_rule_lem panic_on_storage_read = refl
names_rule_lem admin_key_never_rotated = refl
names_rule_lem missing_token_balance_check = refl
names_rule_lem unchecked_env_caller = refl
names_rule_lem oracle_price_feed = refl
names_rule_lem flash_loan_approve = refl
names_rule_lem wasm_unreachable_export = refl
names_rule_lem wasm_no_exports = refl

inline_ignore_rules-append :
    (code rest : Text)
    → All (λ (c : ℕ). c ≢ b's') code
    → inline_ignore_rules (code ++ rest) ≡ inline_ignore_rules rest
unfolding inline_ignore_rules text
inline_ignore_rules-append code rest h = rw (after_marker-append b's' _ code rest h) refl

suppressed-Marked : (lines : List Text) (f : Finding) → Marked lines f → suppressed lines f ≡ true
unfolding suppressed
suppressed-Marked lines f (code, plain, (late, above)) =
    let late' : leb 2 f.line ≡ true = ground (arith, late) in
    rw late' (
      rw above (
        rw (inline_ignore_rules-append code (text "sorseal:ignore " ++ rule_str f.rule) plain)
          (names_rule_lem f.rule)))

inline_ignore_rules-none :
    (line : Text) → ¬ Contains (text "sorseal:ignore") line → inline_ignore_rules line ≡ none
unfolding inline_ignore_rules
inline_ignore_rules-none line h = elim (Option-cases (after_marker (text "sorseal:ignore") line)) [
  | inl absent ↦ rw absent refl
  | inr (rest, found) ↦ absurd (h (after_marker-Contains (text "sorseal:ignore") line found))
]

suppressed-Unmarked :
    (lines : List Text) (f : Finding) → Unmarked lines f → suppressed lines f ≡ false
unfolding suppressed
suppressed-Unmarked lines f h = elim (Bool-cases (leb 2 f.line)) [
  | inr early ↦ rw early refl
  | inl late ↦ elim (Option-cases (get_elem? lines (f.line - 2))) [
    | inl absent ↦ rw late (rw absent refl)
    | inr (above, is_above) ↦ rw late (
        rw is_above
          (rw (inline_ignore_rules-none above (h above (ground (arith, late), is_above))) refl))
  ]
]

parts-append :
    (n : ℕ) (fs gs : List Finding)
    → n ≤ length fs
    → (take n (take n fs ++ gs) ≡ take n fs) × (drop n (take n fs ++ gs) ≡ gs)
parts-append zero fs gs h = (refl, refl)
parts-append (suc n) [] gs h = absurd (omega arith)
parts-append (suc n) (f ∷ fs) gs h =
    let (front, back) = parts-append n fs gs (omega arith) in (ap (◌∷◌ f) front, back)

filter_idem : (p : Finding → Bool) (fs : List Finding) → filter p (filter p fs) ≡ filter p fs
filter_idem p [] = refl
filter_idem p (f ∷ fs) = elim (Bool-cases (p f)) [
  | inl e ↦ rw e (rw e (ap (◌∷◌ f) (filter_idem p fs)))
  | inr e ↦ rw e (filter_idem p fs)
]

Mem-filter :
    (p : Finding → Bool) (f : Finding) (fs : List Finding)
    → Mem f (filter p fs) ↔ (Mem f fs × (p f ≡ true))
Mem-filter p f [] = ((λ h. absurd h), (λ h. absurd h.0))
Mem-filter p f (g ∷ fs) =
    let rest = Mem-filter p f fs in
    elim (Bool-cases (p g)) [
      | inl kept ↦ rw kept (
        (λ h. elim h [
          | inl is ↦ (inl is, ap p is ∙ kept)
          | inr later ↦ let (there, good) = rest.0 later in (inr there, good)
        ]),
        (λ (h, good). elim h [ inl is ↦ inl is | inr later ↦ inr (rest.1 (later, good)) ]),
      )
      | inr gone ↦ rw gone (
        (λ h. let (there, good) = rest.0 h in (inr there, good)),
        (λ (h, good). elim h [
          | inl is ↦ absurd (ground (arith, sym good ∙ ap p is ∙ gone))
          | inr later ↦ rest.1 (later, good)
        ]),
      )
    ]

-- Where suppressions apply to a file with lines: the findings of the files before stay. A finding of this file that is
-- left was there before; one whose line above has no `sorseal:ignore` is left, and one whose line above ends in this
-- word, a blank and its rule's identifier, behind text without an `s`, is not. To apply them again changes nothing.
pub apply_inline_suppressions_lem :
    (findings : List Finding) (start : ℕ) (line : Text) (lines : List Text)
    → start ≤ length findings
    → let kept = apply_inline_suppressions findings start (line ∷ lines) false in
      (take start kept ≡ take start findings)
      × ((f : Finding) → Mem f (drop start kept) → Mem f (drop start findings))
      × ((f : Finding)
          → Mem f (drop start findings)
          → Unmarked (line ∷ lines) f
          → Mem f (drop start kept))
      × ((f : Finding) → Marked (line ∷ lines) f → ¬ Mem f (drop start kept))
      × (apply_inline_suppressions kept start (line ∷ lines) false ≡ kept)
unfolding apply_inline_suppressions
apply_inline_suppressions_lem findings start line lines h =
    let gone : Finding → Bool = suppressed (line ∷ lines) in
    let left : Finding → Bool = λ f. not (gone f) in
    let before = drop start findings in
    let mine : List Finding = filter left before in
    let (front, back) = parts-append start findings mine h in
    (
      front,
      rw back (λ f kept. ((Mem-filter left f before).0 kept).0),
      rw back (λ f there unmarked.
          (Mem-filter left f before).1
            (there, ap not (suppressed-Unmarked (line ∷ lines) f unmarked))),
      rw back (λ f marked kept.
          let stays = ((Mem-filter left f before).0 kept).1 in
          absurd (ground (arith, sym stays ∙ ap not (suppressed-Marked (line ∷ lines) f marked)))),
      rw front (rw back (ap (◌++◌ (take start findings)) (filter_idem left before))),
    )
