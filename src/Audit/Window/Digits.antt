-- ===== src/Audit/Window/Digits.antt =====
-- Decimal digits, as src/audit.rs and src/sim.rs print and read them.
use sorseal.Base.{
  subst, ℕ, zero, suc, ◌+◌, ◌-◌, ◌*◌, ◌/◌, ◌%◌, ◌^◌, ◌≡◌, ◌<◌, refl, ap, sym, ◌∙◌, ◌++◌, ◌&&◌, Bool,
  true, false, [], ◌∷◌, Option, none, some, if◌then◌else◌, ltb, leb, nat_beq, all, Text, trim,
  is_whitespace, Bool-cases, inl, inr, arith,
}
use sorseal.Base.Trim.{trim-all}
use sorseal.Clock.{digits}
use sorseal.Audit.Window.{parse_from, parse_u32}

abbrev pub is_digit : ℕ → Bool
is_digit c = leb b'0' c && leb c b'9'

pub all-append : (s t : Text) → all is_digit (s ++ t) ≡ (all is_digit s && all is_digit t)
all-append [] t = refl
all-append (c ∷ s) t = ground (arith, all-append s t)

pub digits-all : (fuel n : ℕ) → all is_digit (digits fuel n) ≡ true
unfolding digits
digits-all zero n = refl
digits-all (suc fuel) n = elim (Bool-cases (ltb n 10)) [
  | inl e ↦ rw e (ground arith)
  | inr e ↦ rw e (
      all-append (digits fuel (n / 10)) ((n % 10 + b'0') ∷ [])
      ∙ rw (digits-all fuel (n / 10)) (ground arith))
]

-- A power of ten.
abbrev pub tens : ℕ → ℕ
tens zero = 1
tens (suc n) = 10 * tens n

abbrev goes_on : ℕ → ℕ → Bool
goes_on acc c = leb b'0' c && (leb c b'9' && ltb (acc * 10 + (c - b'0')) (2 ^ 32))

parse_from-digit :
    (acc : ℕ) (s : Text) (n d : ℕ)
    → parse_from acc s ≡ some n
    → d < 10
    → n * 10 + d < 2 ^ 32
    → parse_from acc (s ++ ((d + b'0') ∷ [])) ≡ some (n * 10 + d)
unfolding parse_from
parse_from-digit acc [] n d h k m = ground arith
parse_from-digit acc (c ∷ s) n d h k m = elim (Bool-cases (goes_on acc c)) [
  | inl e ↦ rw e (
      parse_from-digit (acc * 10 + (c - b'0')) s n d
        (subst (λ b. (if b then parse_from (acc * 10 + (c - b'0')) s else none) ≡ some n) e h) k m)
  | inr e ↦
      let never : ◌≡◌ {A = Option ℕ} none (some n) =
        subst (λ b. (if b then parse_from (acc * 10 + (c - b'0')) s else none) ≡ some n) e h in
      cc
]

pub parse_from-digits :
    (fuel n : ℕ) → n < tens fuel → n < 2 ^ 32 → parse_from 0 (digits fuel n) ≡ some n
unfolding digits parse_from
parse_from-digits zero n h k = ap some (omega arith)
parse_from-digits (suc fuel) n h k = elim (Bool-cases (ltb n 10)) [
  | inl e ↦
      rw e (parse_from-digit 0 [] 0 n refl (ground arith) (omega arith) ∙ ap some (omega arith))
  | inr e ↦ rw e (
      parse_from-digit 0 (digits fuel (n / 10)) (n / 10) (n % 10)
        (parse_from-digits fuel (n / 10) (omega arith) (omega arith)) (omega arith) (omega arith)
      ∙ ap some (omega arith))
]

-- No sign is taken off a text of digits.
parse_u32-digit :
    (c : ℕ) (s : Text) → all is_digit (c ∷ s) ≡ true → parse_u32 (c ∷ s) ≡ parse_from 0 (c ∷ s)
unfolding parse_u32
parse_u32-digit c [] h = refl
parse_u32-digit c (d ∷ s) h = let e : nat_beq c b'+' ≡ false = ground arith in rw e refl

append-IsCons : (s : Text) (x : ℕ) → (c : ℕ) × (t : Text) × (s ++ (x ∷ []) ≡ c ∷ t)
append-IsCons [] x = (x, [], refl)
append-IsCons (c ∷ s) x = (c, s ++ (x ∷ []), refl)

digits-IsCons : (fuel n : ℕ) → (c : ℕ) × (t : Text) × (digits (suc fuel) n ≡ c ∷ t)
unfolding digits
digits-IsCons fuel n = elim (Bool-cases (ltb n 10)) [
  | inl e ↦ (n + b'0', [], rw e refl)
  | inr e ↦
      let (c, t, same) = append-IsCons (digits fuel (n / 10)) (n % 10 + b'0') in (c, t, rw e same)
]

pub parse_u32-digits : (n : ℕ) → n < 2 ^ 32 → parse_u32 (digits 20 n) ≡ some n
parse_u32-digits n h =
    let (c, t, same) = digits-IsCons 19 n in
    ap parse_u32 same
    ∙ parse_u32-digit c t (subst (λ s. all is_digit s ≡ true) same (digits-all 20 n))
    ∙ ap (parse_from 0) (sym same)
    ∙ parse_from-digits 20 n (omega arith) h

digit_not_space : (c : ℕ) → is_digit c ≡ true → is_whitespace c ≡ false
unfolding is_whitespace
digit_not_space c h = ground arith

pub trim-digits : (n : ℕ) → trim (digits 20 n) ≡ digits 20 n
trim-digits n = trim-all is_digit digit_not_space (digits 20 n) (digits-all 20 n)
