-- ===== src/Sim/Ledger/Chain.antt =====
-- The ids of the simulated events of src/sim.rs, told apart by the ledger that they begin with.
use sorseal.Base.{
  ℕ, zero, suc, ◌+◌, ◌-◌, ◌*◌, ◌^◌, ◌≡◌, ◌≢◌, ◌<◌, refl, ap, sym, ◌∙◌, ◌++◌, true, false, List, [],
  ◌∷◌, Option, some, if◌then◌else◌, length, all, All, contains, replicate, text, Text, arith,
  Bool-cases, inl, inr, ==_iff, text_eq, ◌==◌,
}
use sorseal.Clock.{digits, padded}
use sorseal.Audit.Window.{parse_from}
use sorseal.Audit.Window.Digits.{is_digit, all-append, digits-all, parse_from-digits}
use sorseal.Sim.Ledger.{ledger_of, event_id_of}

pub ledger_of_small : (i : ℕ) → i < 4000000 → ledger_of i ≡ 1000 + i * 1000
unfolding ledger_of
ledger_of_small i h = omega arith

-- The digits before the first character that is none.
abbrev leading : Text → Text
leading [] = []
leading (c ∷ s) = let rest = leading s in if is_digit c then c ∷ rest else []

leading-append : (s t : Text) → all is_digit s ≡ true → leading t ≡ [] → leading (s ++ t) ≡ s
leading-append [] t h none_there = none_there
leading-append (c ∷ s) t h none_there =
    let digit : is_digit c ≡ true = ground arith in
    rw digit (ap (◌∷◌ c) (leading-append s t (ground arith) none_there))

parse_from-zeros : (k : ℕ) (s : Text) → parse_from 0 (replicate k b'0' ++ s) ≡ parse_from 0 s
unfolding parse_from
parse_from-zeros zero s = refl
parse_from-zeros (suc k) s = parse_from-zeros k s

replicate-all : (k : ℕ) → all is_digit (replicate k b'0') ≡ true
replicate-all zero = refl
replicate-all (suc k) = replicate-all k

-- The ledger that an id begins with.
abbrev id_number : Text → Option ℕ
id_number id = parse_from 0 (leading id)

id_number-event_id_of : (n : ℕ) → n < 2 ^ 32 → id_number (event_id_of n) ≡ some n
unfolding event_id_of padded text
id_number-event_id_of n h =
    let s : Text = digits 20 n in
    let zeros : Text = replicate (20 - length s) b'0' in
    let all_digits : all is_digit (zeros ++ s) ≡ true =
      all-append zeros s ∙ rw (replicate-all (20 - length s)) (digits-all 20 n) in
    ap (parse_from 0) (leading-append (zeros ++ s) _ all_digits refl)
    ∙ parse_from-zeros (20 - length s) s
    ∙ parse_from-digits 20 n (omega arith) h

pub event_id_of-named : (n : ℕ) → 0 < n → n < 2 ^ 32 → event_id_of n ≢ []
unfolding parse_from
event_id_of-named n above h empty =
    let none_read : some 0 ≡ some n = sym (ap id_number empty) ∙ id_number-event_id_of n h in
    ground arith

-- Ids of ledgers before this one.
abbrev pub AllBefore : ℕ → List Text → Type 0
AllBefore n seen = All (λ id. (m : ℕ) × (id_number id ≡ some m) × (m < n)) seen

pub contains-AllBefore :
    (n : ℕ) (seen : List Text)
    → n < 2 ^ 32
    → AllBefore n seen
    → contains (event_id_of n) seen ≡ false
contains-AllBefore n [] h before = refl
contains-AllBefore n (id ∷ seen) h ((m, is, below), before) =
    elim (Bool-cases (id == event_id_of n)) [
      | inl same ↦
          let known : some m ≡ some n =
            sym is
            ∙ ap id_number ((==_iff id (event_id_of n)).0 same)
            ∙ id_number-event_id_of n h in
          absurd (ground arith)
      | inr other ↦ rw other (contains-AllBefore n seen h before)
    ]

AllBefore-later : (n k : ℕ) (seen : List Text) → n < k → AllBefore n seen → AllBefore k seen
AllBefore-later n k [] below before = tt
AllBefore-later n k (id ∷ seen) below ((m, is, lower), before) =
    ((m, is, omega arith), AllBefore-later n k seen below before)

pub AllBefore-cons :
    (n k : ℕ) (seen : List Text)
    → n < 2 ^ 32
    → n < k
    → AllBefore n seen
    → AllBefore k (event_id_of n ∷ seen)
AllBefore-cons n k seen h below before =
    ((n, id_number-event_id_of n h, below), AllBefore-later n k seen below before)
