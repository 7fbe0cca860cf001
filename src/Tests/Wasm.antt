-- ===== src/Tests/Wasm.antt =====
-- The walk over the sections of small wasm files.
use sorseal.Base.{◌≡◌, ◌≤◌, refl, true, [], ◌∷◌, ◌++◌, Bytes, ok, arith}
use sorseal.WasmScan.{
  Reader, remaining, WasmStats, wasm_header, new_stats, scan_section, walk_sections, scan,
}
use sorseal.WasmScan.Fuel.{Walks, walk_sections-Walks}

-- A module with a custom section and an export section of two entries.
abbrev two_exports : Bytes
two_exports = wasm_header ++ (0 ∷ 1 ∷ 9 ∷ 7 ∷ 1 ∷ 2 ∷ [])

run_two_exports :
    scan two_exports
    ≡ ok (record {
      functions = 0;
      exports = 2;
      memories = 0;
      trappy_exports = 0;
      is_valid_wasm = true;
    })
unfolding scan sorseal.WasmScan.is_wasm_module walk_sections sorseal.WasmScan.next_u8
    sorseal.WasmScan.add_usize sorseal.WasmScan.uleb_or_zero sorseal.WasmScan.next_uleb scan_section
    sorseal.WasmScan.scan_code
run_two_exports = refl

-- A code section with one body, whose instructions are `unreachable` and `end`.
abbrev one_trap : Bytes
one_trap = wasm_header ++ (10 ∷ 4 ∷ 1 ∷ 2 ∷ 0 ∷ 11 ∷ [])

run_one_trap :
    scan one_trap
    ≡ ok (record {
      functions = 0;
      exports = 0;
      memories = 0;
      trappy_exports = 1;
      is_valid_wasm = true;
    })
unfolding scan sorseal.WasmScan.is_wasm_module walk_sections sorseal.WasmScan.next_u8
    sorseal.WasmScan.add_usize sorseal.WasmScan.uleb_or_zero sorseal.WasmScan.next_uleb scan_section
    sorseal.WasmScan.scan_code sorseal.WasmScan.scan_bodies
run_one_trap = refl

abbrev at_sections : Reader
at_sections = record { bytes = two_exports; pos = 8 }

few_remain : remaining at_sections ≤ 6
unfolding remaining
few_remain = omega arith

walk_sections-Walks_example :
    Walks scan_section at_sections new_stats (walk_sections scan_section 6 at_sections new_stats)
walk_sections-Walks_example = walk_sections-Walks scan_section 6 at_sections new_stats few_remain
