-- ===== src/WasmScan.antt =====
-- src/wasm_scan.rs: the LEB128 reader and the walk over the sections of a wasm file. Additions of positions are those
-- of a build with overflow checks: past 2^64 they panic.
pub mod Fuel
pub mod Findings
use sorseal.Base.{
  ℕ, zero, suc, ◌+◌, ◌-◌, ◌*◌, ◌%◌, ◌^◌, ◌≡◌, min, Bool, true, false, not, ◌&&◌, ◌||◌, List, [],
  ◌∷◌, ◌++◌, Option, none, some, if◌then◌else◌, ltb, leb, nat_beq, ◌==◌, text_eq, length, get_elem?,
  take, drop, unwrap_or, Bytes, Result, ok, err, panic, ◌>>=◌, ◌>>◌, bail_if,
}

pub record Reader : Type 0 where
  pub bytes : Bytes
  pub pos : ℕ

unfoldable pub remaining : Reader → ℕ
remaining r = length r.bytes - r.pos

unfoldable pub next_u8 : Reader → Option ℕ × Reader
next_u8 r = elim (get_elem? r.bytes r.pos) [
  | some b ↦ (some b, record r { pos = r.pos + 1 })
  | none ↦ (none, r)
]

-- The loop of `next_uleb`, with how many bytes it may still read: ten, since the shift grows by 7 from 0 and stays
-- below 64. The bits of `result` lie below the shift, so `|=` is an addition; bits past the 64th are lost.
unfoldable pub uleb_from : ℕ → ℕ → ℕ → Reader → Option ℕ × Reader
uleb_from zero shift result r = (none, r)
uleb_from (suc left) shift result r =
    let (byte, r') = next_u8 r in
    elim byte [
      | none ↦ (none, r')
      | some b ↦
          let sum = result + (b % 128 * 2 ^ shift) % 2 ^ 64 in
          let rest = uleb_from left (shift + 7) sum r' in if ltb b 128 then (some sum, r') else rest
    ]

unfoldable pub next_uleb : Reader → Option ℕ × Reader
unfolding uleb_from next_u8
next_uleb r = uleb_from 10 0 0 r

-- `next_uleb().unwrap_or(0)`.
unfoldable pub uleb_or_zero : Reader → ℕ × Reader
uleb_or_zero r = let (n, r') = next_uleb r in (unwrap_or n 0, r')

pub record WasmStats : Type 0 where
  pub functions : ℕ
  pub exports : ℕ
  pub memories : ℕ
  pub trappy_exports : ℕ
  pub is_valid_wasm : Bool

-- `a + b` on `usize`.
unfoldable pub add_usize : ℕ → ℕ → Result ℕ
add_usize a b = if ltb (a + b) (2 ^ 64) then ok (a + b) else panic

-- `&bytes[start..end]`.
unfoldable pub slice : Bytes → ℕ → ℕ → Result Bytes
slice bytes start end =
    if leb start end && leb end (length bytes)
    then ok (take (end - start) (drop start bytes))
    else panic

abbrev pub read_count : Bytes → ℕ
read_count bytes = (uleb_or_zero (record { bytes = bytes; pos = 0 })).0

-- The arms of `match id`.
unfoldable pub scan_section : Bytes → ℕ → ℕ → ℕ → WasmStats → Result WasmStats
unfolding slice uleb_or_zero
scan_section bytes id start end stats =
    if nat_beq id 3
    then (do sub ← slice bytes start end; ok (record stats { functions = read_count sub }))
    else if nat_beq id 5
    then (do sub ← slice bytes start end; ok (record stats { memories = read_count sub }))
    else if nat_beq id 7
    then (do sub ← slice bytes start end; ok (record stats { exports = read_count sub }))
    else ok stats

-- The walk over the sections: `visit` is what is done with one. The first argument bounds the sections; the
-- number of bytes that remain is enough.
unfoldable pub walk_sections :
    (Bytes → ℕ → ℕ → ℕ → WasmStats → Result WasmStats) → ℕ → Reader → WasmStats → Result WasmStats
walk_sections visit zero r stats = ok stats
walk_sections visit (suc fuel) r stats =
    let (byte, r') = next_u8 r in
    let (size, r'') = uleb_or_zero r' in
    elim byte [
      | none ↦ ok stats
      | some id ↦ (do
        sum ← add_usize r''.pos size
        let end = min sum (length r.bytes)
        stats' ← visit r.bytes id r''.pos end stats
        walk_sections visit fuel (record r { pos = end }) stats')
    ]

-- `body.windows(2).any(…)`: an `unreachable` before an `end`.
unfoldable pub has_trap : Bytes → Bool
has_trap [] = false
has_trap (a ∷ []) = false
has_trap (a ∷ b ∷ s) = (nat_beq a 0 && nat_beq b 11) || has_trap (b ∷ s)

-- The loop over the bodies of a code section.
unfoldable pub scan_bodies : ℕ → Bytes → ℕ → ℕ → Reader → WasmStats → Result WasmStats
unfolding add_usize slice has_trap
scan_bodies zero bytes start end sub stats = ok stats
scan_bodies (suc n) bytes start end sub stats =
    let (body_size, sub') = uleb_or_zero sub in
    (do
      body_start_abs ← add_usize start sub'.pos
      sum ← add_usize body_start_abs body_size
      let body_end_abs = min sum end
      stats' ←
          (if ltb body_start_abs body_end_abs
            then (do
              body ← slice bytes body_start_abs body_end_abs
              ok (
                  if has_trap body
                  then record stats { trappy_exports = stats.trappy_exports + 1 }
                  else stats))
            else ok stats)
      next ← add_usize sub'.pos body_size
      scan_bodies n bytes start end (record sub' { pos = min next (end - start) }) stats')

unfoldable pub scan_code : Bytes → ℕ → ℕ → ℕ → WasmStats → Result WasmStats
scan_code bytes id start end stats =
    if nat_beq id 10
    then (do
      content ← slice bytes start end
      let (n, sub) = uleb_or_zero (record { bytes = content; pos = 0 })
      scan_bodies n bytes start end sub stats)
    else ok stats

abbrev pub wasm_header : Bytes
wasm_header = 0 ∷ b'a' ∷ b's' ∷ b'm' ∷ 1 ∷ 0 ∷ 0 ∷ 0 ∷ []

unfoldable pub is_wasm_module : Bytes → Bool
is_wasm_module bytes = leb 8 (length bytes) && take 8 bytes == wasm_header

abbrev pub new_stats : WasmStats
new_stats = record {
  functions = 0;
  exports = 0;
  memories = 0;
  trappy_exports = 0;
  is_valid_wasm = true;
}

unfoldable pub scan : Bytes → Result WasmStats
scan bytes = do
  bail_if (not (is_wasm_module bytes)) "not a wasm module (missing \\0asm magic / MVP version)" []
  stats ← walk_sections scan_section (length bytes) (record { bytes = bytes; pos = 8 }) new_stats
  walk_sections scan_code (length bytes) (record { bytes = bytes; pos = 8 }) stats
