-- ===== src/Onchain/Cursor.antt =====
-- The XDR reader of src/onchain.rs: a byte slice with a position that never passes its end.
use Prim.Native.String.{String}
use mathlib.Core.List.{append_assoc}
use sorseal.Base.{
  ◌&&◌, true, ℕ, ◌+◌, ◌-◌, ◌*◌, ◌/◌, ◌%◌, ◌^◌, ◌<◌, ◌≡◌, refl, ap, [], ◌∷◌, ◌++◌, Option, none,
  some, arith,
}
use sorseal.Base.{
  ltb, leb, if◌then◌else◌, nat_beq, length, length-append, take, drop, Bytes, Result, ok, panic,
  ◌>>=◌, bail, num,
}

pub record Cursor : Type 0 where
  pub bytes : Bytes
  pub pos : ℕ

unfoldable pub new : Bytes → Cursor
new bs = record { bytes = bs; pos = 0 }

-- `checked_add` on `usize`, then `.filter(|&end| end <= cur.bytes.len())`.
unfoldable pub checked_end : Cursor → ℕ → Option ℕ
checked_end cur n =
    if ltb (cur.pos + n) (2 ^ 64)
    then if leb (cur.pos + n) (length cur.bytes) then some (cur.pos + n) else none
    else none

-- `u32::from_be_bytes` behind `try_into().expect("slice of length 4")`.
unfoldable pub from_be_bytes : Bytes → Result ℕ
from_be_bytes (a ∷ b ∷ c ∷ d ∷ []) = ok (((a * 256 + b) * 256 + c) * 256 + d)
from_be_bytes _ = panic

-- `&bytes[start..end]`, which panics out of range.
unfoldable pub slice : Bytes → ℕ → ℕ → Result Bytes
slice bytes start end =
    if leb start end && leb end (length bytes)
    then ok (take (end - start) (drop start bytes))
    else panic

-- `try_into::<[u8; 32]>().expect("slice of length 32")`.
unfoldable pub array32 : Bytes → Result Bytes
array32 bytes = if nat_beq (length bytes) 32 then ok bytes else panic

unfoldable pub read_u32 : Cursor → String → Result (ℕ × Cursor)
unfolding checked_end
read_u32 cur what = elim (checked_end cur 4) [
  | none ↦ bail "truncated XDR: {what}" []
  | some end ↦ do
    word ← slice cur.bytes cur.pos end
    v ← from_be_bytes word
    ok (v, record cur { pos = end })
]

unfoldable pub take_bytes : Cursor → ℕ → String → Result (Bytes × Cursor)
unfolding checked_end
take_bytes cur n what = elim (checked_end cur n) [
  | none ↦ bail "truncated XDR: {what}" []
  | some end ↦ do out ← slice cur.bytes cur.pos end; ok (out, record cur { pos = end })
]

unfoldable pub expect_tag : Cursor → ℕ → String → Result Cursor
expect_tag cur expected what = do
  (got, cur') ← read_u32 cur what
  if nat_beq got expected
      then ok cur'
      else bail "unexpected XDR tag for {what}: expected {expected}, got {got}"
          (num expected ∷ num got ∷ [])

-- `u32::to_be_bytes`.
unfoldable pub to_be_bytes : ℕ → Bytes
to_be_bytes v = (v / 16777216) % 256 ∷ (v / 65536) % 256 ∷ (v / 256) % 256 ∷ v % 256 ∷ []

-- The cursor that has read `pre` and has `rest` before it.
abbrev pub at : Bytes → Bytes → Cursor
at pre rest = record { bytes = pre ++ rest; pos = length pre }

drop-length-append : (pre rest : Bytes) → drop (length pre) (pre ++ rest) ≡ rest
drop-length-append [] rest = refl
drop-length-append (b ∷ pre) rest = drop-length-append pre rest

take-length-append : (xs rest : Bytes) → take (length xs) (xs ++ rest) ≡ xs
take-length-append [] rest = refl
take-length-append (b ∷ xs) rest = ap (◌∷◌ b) (take-length-append xs rest)

checked_end-at :
    (pre xs rest : Bytes)
    → length pre + length xs < 2 ^ 64
    → checked_end (at pre (xs ++ rest)) (length xs) ≡ some (length (pre ++ xs))
unfolding checked_end
checked_end-at pre xs rest h =
    ground (arith, length-append pre xs, length-append pre (xs ++ rest), length-append xs rest)

-- The slice behind `pre` that holds `xs`.
slice-at :
    (pre xs rest : Bytes) → slice (pre ++ (xs ++ rest)) (length pre) (length (pre ++ xs)) ≡ ok xs
unfolding slice
slice-at pre xs rest =
    let starts : leb (length pre) (length (pre ++ xs)) ≡ true =
      ground (arith, length-append pre xs) in
    let ends : leb (length (pre ++ xs)) (length (pre ++ (xs ++ rest))) ≡ true =
      ground (arith, length-append pre xs, length-append pre (xs ++ rest), length-append xs rest) in
    let width : length (pre ++ xs) - length pre ≡ length xs = omega (arith, length-append pre xs) in
    rw starts (rw ends (rw width (rw (drop-length-append, take-length-append))))

pub array32_lem : (bytes : Bytes) → length bytes ≡ 32 → array32 bytes ≡ ok bytes
unfolding array32
array32_lem bytes e = ground (arith, e)

at-append :
    (pre xs rest : Bytes)
    → record (at pre (xs ++ rest)) { pos = length (pre ++ xs) } ≡ at (pre ++ xs) rest
at-append pre xs rest = rw append_assoc

-- Reading `length xs` bytes in front of `rest`.
pub take_bytes-at :
    (n : ℕ) (pre xs rest : Bytes) (what : String)
    → length xs ≡ n
    → length pre + n < 2 ^ 64
    → take_bytes (at pre (xs ++ rest)) n what ≡ ok (xs, at (pre ++ xs) rest)
unfolding take_bytes
take_bytes-at n pre xs rest what e h =
    rw (← e) (rw (checked_end-at pre xs rest (omega arith), take_bytes) (rw (slice-at, at-append)))

from_be_bytes-to_be_bytes : (v : ℕ) → v < 2 ^ 32 → from_be_bytes (to_be_bytes v) ≡ ok v
unfolding from_be_bytes to_be_bytes
from_be_bytes-to_be_bytes v h = ap ok (omega arith)

read_u32-at_bytes :
    (a b c d : ℕ) (pre rest : Bytes) (what : String)
    → length pre + 4 < 2 ^ 64
    → let xs = a ∷ b ∷ c ∷ d ∷ [] in
      read_u32 (at pre (xs ++ rest)) what ≡ (from_be_bytes xs >>= λ v. ok (v, at (pre ++ xs) rest))
unfolding read_u32
read_u32-at_bytes a b c d pre rest what h =
    let xs : Bytes = a ∷ b ∷ c ∷ d ∷ [] in
    rw (checked_end-at pre xs rest h, read_u32) (rw (slice-at pre xs rest, at-append pre xs rest))

pub read_u32-at :
    (v : ℕ) (pre rest : Bytes) (what : String)
    → v < 2 ^ 32
    → length pre + 4 < 2 ^ 64
    → read_u32 (at pre (to_be_bytes v ++ rest)) what ≡ ok (v, at (pre ++ to_be_bytes v) rest)
unfolding to_be_bytes
read_u32-at v pre rest what small h =
    rw (read_u32-at_bytes _ _ _ _ pre rest what h) (rw (from_be_bytes-to_be_bytes v small))

pub expect_tag-at :
    (v : ℕ) (pre rest : Bytes) (what : String)
    → v < 2 ^ 32
    → length pre + 4 < 2 ^ 64
    → expect_tag (at pre (to_be_bytes v ++ rest)) v what ≡ ok (at (pre ++ to_be_bytes v) rest)
unfolding expect_tag
expect_tag-at v pre rest what small h = rw (read_u32-at v pre rest what small h) (ground arith)

length-append_bytes : (xs ys : Bytes) → length (xs ++ ys) ≡ length xs + length ys
length-append_bytes = length-append

length-to_be_bytes : (v : ℕ) → length (to_be_bytes v) ≡ 4
unfolding to_be_bytes
length-to_be_bytes v = refl

-- A reading of a known layout, step by step: at position `k`, whatever has been read, the next
-- item is read, and what follows goes on at the position behind it.
module _ {B : Type 0} (k : ℕ) {r : Result B} where
  pub read_u32-then :
      (v : ℕ) (pre rest : Bytes) (what : String) (f : ℕ × Cursor → Result B)
      → length pre ≡ k
      → ltb v (2 ^ 32) && ltb (k + 4) (2 ^ 64) ≡ true
      → ((pre' : Bytes) → length pre' ≡ k + 4 → f (v, at pre' rest) ≡ r)
      → (read_u32 (at pre (to_be_bytes v ++ rest)) what >>= f) ≡ r
  read_u32-then v pre rest what f e small next =
      rw (read_u32-at v pre rest what (ground arith) (ground arith)) (
        next (pre ++ to_be_bytes v)
          (omega (arith, length-append_bytes pre (to_be_bytes v), length-to_be_bytes v)))

  pub expect_tag-then :
      (v : ℕ) (pre rest : Bytes) (what : String) (f : Cursor → Result B)
      → length pre ≡ k
      → ltb v (2 ^ 32) && ltb (k + 4) (2 ^ 64) ≡ true
      → ((pre' : Bytes) → length pre' ≡ k + 4 → f (at pre' rest) ≡ r)
      → (expect_tag (at pre (to_be_bytes v ++ rest)) v what >>= f) ≡ r
  expect_tag-then v pre rest what f e small next =
      rw (expect_tag-at v pre rest what (ground arith) (ground arith)) (
        next (pre ++ to_be_bytes v)
          (omega (arith, length-append_bytes pre (to_be_bytes v), length-to_be_bytes v)))

  pub take_bytes-then :
      (n : ℕ) (pre xs rest : Bytes) (what : String) (f : Bytes × Cursor → Result B)
      → length pre ≡ k
      → length xs ≡ n
      → ltb (k + n) (2 ^ 64) ≡ true
      → ((pre' : Bytes) → length pre' ≡ k + n → f (xs, at pre' rest) ≡ r)
      → (take_bytes (at pre (xs ++ rest)) n what >>= f) ≡ r
  take_bytes-then n pre xs rest what f e len small next =
      rw (take_bytes-at n pre xs rest what len (ground arith))
        (next (pre ++ xs) (omega (arith, length-append_bytes pre xs)))
