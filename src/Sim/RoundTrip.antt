-- ===== src/Sim/RoundTrip.antt =====
-- The readers of src/onchain.rs and src/audit.rs undo the encoders of src/sim.rs.
use sorseal.Base.{
  ◌^◌, ◌≡◌, refl, [], some, true, ltb, ==_refl, text_eq, >>=-eq-ok, arith, length, Text, Bytes, ok,
  ◌==◌, to_ascii_lowercase, ◌<◌, All,
}
use sorseal.Interfaces.Encodings.{Base64, Base64Laws}
use sorseal.Digest.Hex.{hex, IsByte}
use sorseal.Onchain.ContractId.{hex_to_bytes}
use sorseal.Onchain.ContractId.HexId.{hex-hex_to_bytes}
use sorseal.Onchain.Cursor.{array32_lem, read_u32-then, expect_tag-then, take_bytes-then}
use sorseal.Onchain.Entry.{read_executable, wasm_hash_from_bytes, wasm_hash_from_entry}
use sorseal.Audit.Event.{
  executable_update, read_symbol, is_executable_update, wasm_kind, read_wasm_executable,
  decode_wasm_executable,
}
use sorseal.Sim.Encode.{
  symbol_scval, symbol_scval_b64, wasm_scval, wasm_scval_b64, contract_instance_entry,
  contract_instance_entry_b64, hex_bytes,
}

length-wasm_kind : length wasm_kind ≡ 4
unfolding wasm_kind
length-wasm_kind = refl

-- Eight readings over a layout, each with what stands before and behind it.
entry_bytes :
    (id wasm : Bytes)
    → length id ≡ 32
    → length wasm ≡ 32
    → wasm_hash_from_bytes (contract_instance_entry id wasm) ≡ ok (some wasm)
unfolding wasm_hash_from_bytes contract_instance_entry read_executable
entry_bytes id wasm hid hwasm = expect_tag-then 0 6 [] _ _ _ refl refl λ p₁ e₁.
    read_u32-then 4 0 p₁ _ _ _ e₁ refl λ p₂ e₂. expect_tag-then 8 1 p₂ _ _ _ e₂ refl λ p₃ e₃.
      take_bytes-then 12 32 p₃ id _ _ _ e₃ hid refl λ p₄ e₄.
        expect_tag-then 44 20 p₄ _ _ _ e₄ refl λ p₅ e₅.
          expect_tag-then 48 1 p₅ _ _ _ e₅ refl λ p₆ e₆.
            expect_tag-then 52 19 p₆ _ _ _ e₆ refl λ p₇ e₇.
              read_u32-then 56 0 p₇ _ _ _ e₇ refl λ p₈ e₈.
                take_bytes-then 60 32 p₈ wasm _ _ _ e₈ hwasm refl
                  λ _ _. rw (array32_lem wasm hwasm) refl

executable_bytes :
    (hash : Bytes) → length hash ≡ 32 → read_wasm_executable (wasm_scval hash) ≡ ok (hex hash)
unfolding read_wasm_executable wasm_scval
executable_bytes hash e = expect_tag-then 0 16 [] _ _ _ refl refl λ p₁ e₁.
    expect_tag-then 4 1 p₁ _ _ _ e₁ refl λ p₂ e₂. expect_tag-then 8 2 p₂ _ _ _ e₂ refl λ p₃ e₃.
      expect_tag-then 12 15 p₃ _ _ _ e₃ refl λ p₄ e₄. read_u32-then 16 4 p₄ _ _ _ e₄ refl λ p₅ e₅.
        take_bytes-then 20 4 p₅ wasm_kind _ _ _ e₅ length-wasm_kind refl λ p₆ e₆.
          rw (==_refl wasm_kind) (
            expect_tag-then 24 13 p₆ _ _ _ e₆ refl λ p₇ e₇.
              read_u32-then 28 32 p₇ _ _ _ e₇ refl
                λ p₈ e₈. take_bytes-then 32 32 p₈ hash _ _ _ e₈ e refl λ _ _. refl)

symbol_bytes :
    (name : Bytes)
    → ltb (length name) (2 ^ 32) ≡ true
    → read_symbol (symbol_scval name) ≡ ok (15, name)
unfolding read_symbol symbol_scval
symbol_bytes name small = read_u32-then 0 15 [] _ _ _ refl refl λ p₁ e₁.
    read_u32-then 4 (length name) p₁ _ _ _ e₁ (ground arith)
      λ p₂ e₂. take_bytes-then 8 (length name) p₂ name _ _ _ e₂ refl (ground arith) λ _ _. refl

-- What `hex_bytes` accepts is 32 bytes, which print as the lower case of the text read.
pub hex_bytes-eq-ok :
    (s : Text) {bs : Bytes}
    → hex_bytes s ≡ ok bs
    → (length bs ≡ 32) × All IsByte bs × (hex bs ≡ to_ascii_lowercase s)
unfolding hex_bytes hex_to_bytes
hex_bytes-eq-ok s h = hex-hex_to_bytes s (ground arith)

module _ (B : Base64) (laws : Base64Laws B) where
  -- Under the law that base64 decodes what it encodes: the ledger entry that the simulator builds
  -- for a contract and a wasm hash is read back as that hash.
  pub wasm_hash_from_entry-contract_instance_entry_b64 :
      (id_hex wasm_hex : Text) {entry : Text}
      → contract_instance_entry_b64 B id_hex wasm_hex ≡ ok entry
      → (wasm : Bytes) × (wasm_hash_from_entry B entry ≡ ok (some wasm))
        × (hex wasm ≡ to_ascii_lowercase wasm_hex)
  unfolding contract_instance_entry_b64 wasm_hash_from_entry
  wasm_hash_from_entry-contract_instance_entry_b64 id_hex wasm_hex {entry} h =
      let (id, p, h') = >>=-eq-ok (hex_bytes id_hex) _ h in
      let (wasm, q, built) = >>=-eq-ok (hex_bytes wasm_hex) _ h' in
      let (id_len, _, _) = hex_bytes-eq-ok id_hex p in
      let (wasm_len, _, digits) = hex_bytes-eq-ok wasm_hex q in
      (
        wasm,
        ground (
          arith,
          laws.decode-encode (contract_instance_entry id wasm),
          entry_bytes id wasm id_len wasm_len,
        ),
        digits,
      )

  -- Under the same law: a topic that the simulator builds for a wasm hash is decoded to that hash,
  -- in lower case.
  pub decode_wasm_executable-wasm_scval_b64 :
      (wasm_hex : Text) {topic : Text}
      → wasm_scval_b64 B wasm_hex ≡ ok topic
      → decode_wasm_executable B topic ≡ ok (to_ascii_lowercase wasm_hex)
  unfolding wasm_scval_b64 decode_wasm_executable
  decode_wasm_executable-wasm_scval_b64 wasm_hex {topic} h =
      let (hash, q, built) = >>=-eq-ok (hex_bytes wasm_hex) _ h in
      let (len, _, digits) = hex_bytes-eq-ok wasm_hex q in
      ground (arith, laws.decode-encode (wasm_scval hash), executable_bytes hash len)

  -- A symbol that the simulator encodes is taken for an upgrade event exactly when it is the name
  -- `executable_update`.
  pub is_executable_update-symbol_scval_b64 :
      (name : Bytes)
      → length name < 2 ^ 32
      → is_executable_update B (symbol_scval_b64 B name) ≡ ok (name == executable_update)
  unfolding is_executable_update symbol_scval_b64
  is_executable_update-symbol_scval_b64 name small =
      rw (laws.decode-encode (symbol_scval name), is_executable_update)
        (rw (symbol_bytes name (ground arith)))
