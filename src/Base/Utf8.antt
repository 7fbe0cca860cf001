-- ===== src/Base/Utf8.antt =====
-- UTF-8: `str::as_bytes` and `String::from_utf8`.
use Prim.Native.Nat.{ℕ, zero, suc, ◌+◌, ◌-◌, ◌*◌, ◌/◌, ◌%◌, ◌<◌, ◌≤◌}
use mathlib.Core.Path.{◌≡◌, refl, ap}
use mathlib.Core.Logic.{inl, inr}
use mathlib.Core.Bool.{Bool, true, false, ◌&&◌, ◌||◌}
use mathlib.Core.List.{[], ◌∷◌, ◌++◌}
use mathlib.Core.Option.{Option, none, some}
use native.Mathlib.Omega.{arith}
use sorseal.Base.Tests.{nat_beq, ltb, leb, if◌then◌else◌, Bool-cases}
use sorseal.Base.Lists.{All}
use sorseal.Base.Words.{Text, Bytes}

abbrev pub is_scalar : ℕ → Bool
is_scalar c = ltb c 0xd800 || (leb 0xe000 c && ltb c 0x110000)

-- A Unicode scalar value, as a `char` is.
abbrev pub IsScalar : ℕ → Type 0
IsScalar c = is_scalar c ≡ true

unfoldable pub as_bytes : Text → Bytes
as_bytes [] = []
as_bytes (c ∷ s) =
    let rest = as_bytes s in
    if ltb c 0x80
    then c ∷ rest
    else if ltb c 0x800
    then (0xc0 + c / 64) ∷ (0x80 + c % 64) ∷ rest
    else if ltb c 0x10000
    then (0xe0 + c / 4096) ∷ (0x80 + c / 64 % 64) ∷ (0x80 + c % 64) ∷ rest
    else (0xf0 + c / 262144)
      ∷ (0x80 + c / 4096 % 64)
      ∷ (0x80 + c / 64 % 64)
      ∷ (0x80 + c % 64)
      ∷ rest

-- Between characters, or before a continuation byte from `lo` to `hi`, with how many follow it, and the bits read.
pub data Reader : Type 0 where
  start : Reader
  more : (n lo hi bits : ℕ) → Reader

abbrev within : ℕ → ℕ → ℕ → Bool
within lo hi b = leb lo b && leb b hi

-- Behind the first byte of a character of several bytes; nothing overlong, no surrogate.
unfoldable pub lead : ℕ → Option Reader
lead b =
    if within 0xc2 0xdf b
    then some (more 0 0x80 0xbf (b - 0xc0))
    else if nat_beq b 0xe0
    then some (more 1 0xa0 0xbf 0)
    else if nat_beq b 0xed
    then some (more 1 0x80 0x9f 0xd)
    else if within 0xe1 0xef b
    then some (more 1 0x80 0xbf (b - 0xe0))
    else if nat_beq b 0xf0
    then some (more 2 0x90 0xbf 0)
    else if within 0xf1 0xf3 b
    then some (more 2 0x80 0xbf (b - 0xf0))
    else if nat_beq b 0xf4
    then some (more 2 0x80 0x8f 4)
    else none

-- What a byte completes, and the reader behind it.
unfoldable pub read_byte : Reader → ℕ → Option (Text × Reader)
read_byte start b =
    if ltb b 0x80
    then some (b ∷ [], start)
    else elim (lead b) [ none ↦ none | some r ↦ some ([], r) ]
read_byte (more zero lo hi bits) b =
    if within lo hi b then some ((bits * 64 + (b - 0x80)) ∷ [], start) else none
read_byte (more (suc n) lo hi bits) b =
    if within lo hi b then some ([], more n 0x80 0xbf (bits * 64 + (b - 0x80))) else none

-- Puts what a byte completed before the rest.
abbrev before : Option (Text × Reader) → (Reader → Option Text) → Option Text
before none rest = none
before (some (s, r)) rest = elim (rest r) [ none ↦ none | some t ↦ some (s ++ t) ]

unfoldable pub read_bytes : Bytes → Reader → Option Text
read_bytes [] start = some []
read_bytes [] (more n lo hi bits) = none
read_bytes (b ∷ bs) r = before (read_byte r b) (read_bytes bs)

unfoldable pub from_utf8 : Bytes → Option Text
from_utf8 bs = read_bytes bs start

step_start :
    (c : ℕ) (r : Reader) (bs : Bytes) (t : Text)
    → lead c ≡ some r
    → ltb c 0x80 ≡ false
    → read_bytes bs r ≡ some t
    → read_bytes (c ∷ bs) start ≡ some t
unfolding read_bytes read_byte
step_start c r bs t h k e = rw k (rw h (rw e refl))

step_last :
    (lo hi bits b v : ℕ) (bs : Bytes) (t : Text)
    → within lo hi b ≡ true
    → bits * 64 + (b - 0x80) ≡ v
    → read_bytes bs start ≡ some t
    → read_bytes (b ∷ bs) (more 0 lo hi bits) ≡ some (v ∷ t)
unfolding read_bytes read_byte
step_last lo hi bits b v bs t h k e = rw h (rw e (ap (λ (x : ℕ). some (x ∷ t)) k))

step_more :
    (n lo hi bits b v : ℕ) (bs : Bytes) (t : Text)
    → within lo hi b ≡ true
    → bits * 64 + (b - 0x80) ≡ v
    → read_bytes bs (more n 0x80 0xbf v) ≡ some t
    → read_bytes (b ∷ bs) (more (suc n) lo hi bits) ≡ some t
unfolding read_bytes read_byte
step_more n lo hi bits b v bs t h k e = rw h (rw k (rw e refl))

-- What a first byte for the high bits `v` allows behind it.
abbrev Leads : ℕ → ℕ → (ℕ → Type 0) → ℕ → Type 0
Leads n byte Fits v =
    (lo hi : ℕ) × (lead byte ≡ some (more n lo hi v))
    × ((m : ℕ) → m < 64 → Fits m → within lo hi (0x80 + m) ≡ true)

lead_two : (v : ℕ) → 2 ≤ v → v < 32 → lead (0xc0 + v) ≡ some (more 0 0x80 0xbf v)
unfolding lead
lead_two v h k = ground arith

abbrev Fits3 : ℕ → ℕ → Type 0
Fits3 v m = (v ≡ 0 → 32 ≤ m) × (v ≡ 13 → m < 32)

lead_three : (v : ℕ) → v < 16 → Leads 1 (0xe0 + v) (Fits3 v) v
unfolding lead
lead_three v h = elim (Bool-cases (nat_beq v 0)) [
  | inl zero_bits ↦ (0xa0, 0xbf, ground arith, λ m k fits. ground (arith, fits.0))
  | inr some_bits ↦ elim (Bool-cases (nat_beq v 13)) [
    | inl low ↦ (0x80, 0x9f, ground arith, λ m k fits. ground (arith, fits.1))
    | inr other ↦ (0x80, 0xbf, ground arith, λ m k fits. ground arith)
  ]
]

abbrev Fits4 : ℕ → ℕ → Type 0
Fits4 v m = (v ≡ 0 → 16 ≤ m) × (v ≡ 4 → m < 16)

lead_four : (v : ℕ) → v < 5 → Leads 2 (0xf0 + v) (Fits4 v) v
unfolding lead
lead_four v h = elim (Bool-cases (nat_beq v 0)) [
  | inl zero_bits ↦ (0x90, 0xbf, ground arith, λ m k fits. ground (arith, fits.0))
  | inr some_bits ↦ elim (Bool-cases (nat_beq v 4)) [
    | inl low ↦ (0x80, 0x8f, ground arith, λ m k fits. ground (arith, fits.1))
    | inr other ↦ (0x80, 0xbf, ground arith, λ m k fits. ground arith)
  ]
]

module _ (c : ℕ) (bs : Bytes) (t : Text) (e : read_bytes bs start ≡ some t) where
  one : ltb c 0x80 ≡ true → read_bytes (c ∷ bs) start ≡ some (c ∷ t)
  unfolding read_bytes read_byte
  one small = rw small (rw e refl)

  tail_byte : (n : ℕ) → within 0x80 0xbf (0x80 + n % 64) ≡ true
  tail_byte n = ground arith

  last :
      (bits : ℕ)
      → bits * 64 + c % 64 ≡ c
      → read_bytes ((0x80 + c % 64) ∷ bs) (more 0 0x80 0xbf bits) ≡ some (c ∷ t)
  last bits h = step_last 0x80 0xbf bits _ c bs t (tail_byte c) (omega (arith, h)) e

  two :
      0x80 ≤ c
      → c < 0x800
      → read_bytes ((0xc0 + c / 64) ∷ (0x80 + c % 64) ∷ bs) start ≡ some (c ∷ t)
  two h k =
      step_start _ _ _ _ (lead_two (c / 64) (omega arith) (omega arith)) (ground arith)
        (last (c / 64) (omega arith))

  three :
      0x800 ≤ c
      → c < 0x10000
      → IsScalar c
      → read_bytes ((0xe0 + c / 4096) ∷ (0x80 + c / 64 % 64) ∷ (0x80 + c % 64) ∷ bs) start
        ≡ some (c ∷ t)
  three h k scalar =
      let (lo, hi, leads, fits) = lead_three (c / 4096) (omega arith) in
      step_start _ _ _ _ leads (ground arith) (
        step_more 0 lo hi (c / 4096) _ (c / 64) _ _
          (fits (c / 64 % 64) (omega arith) ((λ z. omega arith), (λ z. ground arith))) (omega arith)
          (last (c / 64) (omega arith)))

  four :
      0x10000 ≤ c
      → c < 0x110000
      → read_bytes
          ((0xf0 + c / 262144)
            ∷ (0x80 + c / 4096 % 64)
            ∷ (0x80 + c / 64 % 64)
            ∷ (0x80 + c % 64)
            ∷ bs)
          start
        ≡ some (c ∷ t)
  four h k =
      let (lo, hi, leads, fits) = lead_four (c / 262144) (omega arith) in
      step_start _ _ _ _ leads (ground arith) (
        step_more 1 lo hi (c / 262144) _ (c / 4096) _ _
          (fits (c / 4096 % 64) (omega arith) ((λ z. omega arith), (λ z. omega arith)))
          (omega arith)
          (step_more 0 0x80 0xbf (c / 4096) _ (c / 64) _ _ (tail_byte (c / 64)) (omega arith)
            (last (c / 64) (omega arith))))

-- What a string is encoded to is read as the same string.
pub from_utf8-as_bytes : (s : Text) → All IsScalar s → from_utf8 (as_bytes s) ≡ some s
unfolding from_utf8 as_bytes read_bytes
from_utf8-as_bytes [] h = refl
from_utf8-as_bytes (c ∷ s) (scalar, h) =
    let rest = from_utf8-as_bytes s h in
    elim (Bool-cases (ltb c 0x80)) [
      | inl small ↦ rw small (one c (as_bytes s) s rest small)
      | inr above ↦ elim (Bool-cases (ltb c 0x800)) [
        | inl small ↦ rw above (rw small (two c (as_bytes s) s rest (ground arith) (ground arith)))
        | inr higher ↦ elim (Bool-cases (ltb c 0x10000)) [
          | inl small ↦ rw above (
              rw higher
                (rw small (three c (as_bytes s) s rest (ground arith) (ground arith) scalar)))
          | inr highest ↦
              rw above
                (rw higher (rw highest (four c (as_bytes s) s rest (ground arith) (ground arith))))
        ]
      ]
    ]
