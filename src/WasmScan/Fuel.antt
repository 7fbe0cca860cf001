-- ===== src/WasmScan/Fuel.antt =====
-- The walk over the sections of a wasm file ends: each section moves the reader on.
use sorseal.Base.{
  ℕ, zero, suc, ◌+◌, ◌≤◌, ◌<◌, ◌≡◌, refl, min, [], ◌∷◌, none, some, ltb, length, get_elem?, Bytes,
  Result, Error, ok, err, panic, arith, Bool-cases, ◌*◌, ◌%◌, ◌^◌, Option-cases, Result-cases, inl,
  inr,
}
use sorseal.WasmScan.{
  Reader, remaining, next_u8, uleb_from, next_uleb, uleb_or_zero, WasmStats, add_usize,
  walk_sections,
}

get_elem?-some : (bs : Bytes) (i : ℕ) {b : ℕ} → get_elem? bs i ≡ some b → i < length bs
get_elem?-some [] i h = cc
get_elem?-some (x ∷ bs) zero h = omega arith
get_elem?-some (x ∷ bs) (suc i) h = omega (arith, get_elem?-some bs i h)

-- Reading moves forward.
next_u8-forward : (r : Reader) → r.pos ≤ (next_u8 r).1.pos
unfolding next_u8
next_u8-forward r = elim (Option-cases (get_elem? r.bytes r.pos)) [
  | inl e ↦ rw (e, next_u8) (omega arith)
  | inr (b, e) ↦ rw (e, next_u8) (omega arith)
]

uleb_from-forward :
    (left shift result : ℕ) (r : Reader) → r.pos ≤ (uleb_from left shift result r).1.pos
unfolding uleb_from
uleb_from-forward zero shift result r = omega arith
uleb_from-forward (suc left) shift result r = elim (Option-cases (next_u8 r).0) [
  | inl e ↦ rw (e, uleb_from) (next_u8-forward r)
  | inr (b, e) ↦
      rw (e, uleb_from)
        (elim (Bool-cases (ltb b 128)) [
          | inl last ↦ rw last (next_u8-forward r)
          | inr more ↦ rw more (
              omega (
                arith,
                next_u8-forward r,
                uleb_from-forward left (shift + 7) (result + (b % 128 * 2 ^ shift) % 2 ^ 64)
                    (next_u8 r).1,
              ))
        ])
]

uleb_or_zero-forward : (r : Reader) → r.pos ≤ (uleb_or_zero r).1.pos
unfolding uleb_or_zero next_uleb
uleb_or_zero-forward r = uleb_from-forward 10 0 0 r

next_u8-end : (r : Reader) → length r.bytes ≤ r.pos → next_u8 r ≡ (none, r)
unfolding next_u8
next_u8-end r h = elim (Option-cases (get_elem? r.bytes r.pos)) [
  | inl e ↦ rw (e, next_u8) refl
  | inr (b, e) ↦ absurd (omega (arith, get_elem?-some r.bytes r.pos e))
]

next_u8-some :
    (r : Reader) {b : ℕ}
    → (next_u8 r).0 ≡ some b
    → (r.pos < length r.bytes) × ((next_u8 r).1.pos ≡ r.pos + 1)
unfolding next_u8
next_u8-some r {b} h = elim (Option-cases (get_elem? r.bytes r.pos)) [
  | inl e ↦ absurd (ground (arith, e))
  | inr (c, e) ↦ rw (e, next_u8) (get_elem?-some r.bytes r.pos e, refl)
]

add_usize-ok : (a b : ℕ) {c : ℕ} → add_usize a b ≡ ok c → c ≡ a + b
unfolding add_usize
add_usize-ok a b h = ground arith

-- The loop as it is written, without a number of rounds, in a build with overflow checks: how it goes from a reader and
-- what was counted so far, and with what it is left.
pub data Walks (visit : Bytes → ℕ → ℕ → ℕ → WasmStats → Result WasmStats)
    : Reader → WasmStats → Result WasmStats → Type 0 where
  ended : {r : Reader} {stats : WasmStats} → remaining r ≡ 0 → Walks visit r stats (ok stats)
  overflowed :
      {r : Reader} {stats : WasmStats} {id : ℕ}
      → (next_u8 r).0 ≡ some id
      → (let (size, r'') = uleb_or_zero (next_u8 r).1 in 2 ^ 64 ≤ r''.pos + size)
      → Walks visit r stats panic
  failed :
      {r : Reader} {stats : WasmStats} {id : ℕ} {e : Error}
      → (next_u8 r).0 ≡ some id
      → (let (size, r'') = uleb_or_zero (next_u8 r).1 in
          visit r.bytes id r''.pos (min (r''.pos + size) (length r.bytes)) stats ≡ err e)
      → Walks visit r stats (err e)
  panicked :
      {r : Reader} {stats : WasmStats} {id : ℕ}
      → (next_u8 r).0 ≡ some id
      → (let (size, r'') = uleb_or_zero (next_u8 r).1 in
          visit r.bytes id r''.pos (min (r''.pos + size) (length r.bytes)) stats ≡ panic)
      → Walks visit r stats panic
  went_on :
      {r : Reader} {stats stats' : WasmStats} {id : ℕ} {out : Result WasmStats}
      → (next_u8 r).0 ≡ some id
      → (let (size, r'') = uleb_or_zero (next_u8 r).1 in r''.pos + size < 2 ^ 64)
      → (let (size, r'') = uleb_or_zero (next_u8 r).1 in
          visit r.bytes id r''.pos (min (r''.pos + size) (length r.bytes)) stats ≡ ok stats')
      → Walks visit
          (record r {
            pos =
                min
                  ((uleb_or_zero (next_u8 r).1).1.pos + (uleb_or_zero (next_u8 r).1).0)
                  (length r.bytes);
          })
          stats'
          out
      → Walks visit r stats out

add_usize_fits : (a b : ℕ) → a + b < 2 ^ 64 → add_usize a b ≡ ok (a + b)
unfolding add_usize
add_usize_fits a b h = ground (arith, h)

add_usize_over : (a b : ℕ) → 2 ^ 64 ≤ a + b → add_usize a b ≡ panic
unfolding add_usize
add_usize_over a b h = ground (arith, h)

get_elem?-none : (bs : Bytes) (i : ℕ) → get_elem? bs i ≡ none → length bs ≤ i
get_elem?-none [] i h = omega arith
get_elem?-none (x ∷ bs) zero h = cc
get_elem?-none (x ∷ bs) (suc i) h = omega (arith, get_elem?-none bs i h)

next_u8-none : (r : Reader) → (next_u8 r).0 ≡ none → remaining r ≡ 0
unfolding next_u8 remaining
next_u8-none r h = elim (Option-cases (get_elem? r.bytes r.pos)) [
  | inl e ↦ omega (arith, get_elem?-none r.bytes r.pos e)
  | inr (b, e) ↦ absurd (ground (arith, h, e))
]

-- In a build with overflow checks: whatever is done with a section, the loop over the sections ends, and with at least as
-- many rounds as bytes are left the walk gives what the loop is left with.
pub walk_sections-Walks :
    (visit : Bytes → ℕ → ℕ → ℕ → WasmStats → Result WasmStats) (fuel : ℕ) (r : Reader)
    (stats : WasmStats)
    → remaining r ≤ fuel
    → Walks visit r stats (walk_sections visit fuel r stats)
unfolding walk_sections remaining
walk_sections-Walks visit zero r stats h = ended (omega (arith, h))
walk_sections-Walks visit (suc fuel) r stats h = elim (Option-cases (next_u8 r).0) [
  | inl e ↦ rw (e, walk_sections) (ended (next_u8-none r e))
  | inr (id, e) ↦
      let r'' = (uleb_or_zero (next_u8 r).1).1 in
      let size = (uleb_or_zero (next_u8 r).1).0 in
      let end = min (r''.pos + size) (length r.bytes) in
      rw (e, walk_sections)
        (elim (Bool-cases (ltb (r''.pos + size) (2 ^ 64))) [
          | inr over ↦
              let past : 2 ^ 64 ≤ r''.pos + size = ground (arith, over) in
              rw (add_usize_over r''.pos size past) (overflowed e past)
          | inl fits ↦
              let within : r''.pos + size < 2 ^ 64 = ground (arith, fits) in
              rw (add_usize_fits r''.pos size within)
                (elim (Result-cases (visit r.bytes id r''.pos end stats)) [
                  | inl (stats', visited) ↦ rw visited (
                      went_on e within visited (
                        walk_sections-Walks visit fuel (record r { pos = end }) stats'
                          (let (here, next) = next_u8-some r e in
                            omega (arith, uleb_or_zero-forward (next_u8 r).1, here, next))))
                  | inr (inl (f, fails)) ↦ rw fails (failed e fails)
                  | inr (inr panics) ↦ rw panics (panicked e panics)
                ])
        ])
]
