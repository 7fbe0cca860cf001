-- ===== src/Sim/Ledger/Events.antt =====
-- The simulated events of src/sim.rs, as src/audit.rs decodes them.
use sorseal.Base.{
  ap, ℕ, ◌%◌, ◌^◌, ◌≡◌, ◌<◌, refl, sym, ◌∙◌, subst, true, false, [], ◌∷◌, some, length, all, text,
  Text, Bytes, byte_len, utf8_width, is_whitespace, to_ascii_lowercase, ok, ==_refl, text_eq, arith,
}
use sorseal.Base.Trim.{trim-all}
use sorseal.Digest.Hex.{hex}
use sorseal.Interfaces.Encodings.{Strkey, HasStrkey, is_base32, IsContractStrkey}
use sorseal.Interfaces.Services.{Services, ServicesLaws}
use sorseal.Onchain.ContractId.{strip_0x, starts_with_C, normalize_trimmed, normalize_contract_id}
use sorseal.Audit.Event.{
  UpgradeEvent, executable_update, event_topics, text_field, ledger_field, contract_field,
  normalize_field, decode_upgrade_event, is_executable_update,
}
use sorseal.Sign.Envelope.RoundTrip.{field_str, field_array}
use sorseal.Sim.Encode.{symbol_scval_b64, wasm_scval_b64}
use sorseal.Sim.RoundTrip.{
  decode_wasm_executable-wasm_scval_b64, is_executable_update-symbol_scval_b64,
}
use sorseal.Sim.Ledger.{ledger_of, closed_at_of, tx_hash_of, event_id_of, event_object}

base32-is_whitespace : (c : ℕ) → is_base32 c ≡ true → is_whitespace c ≡ false
unfolding is_whitespace
base32-is_whitespace c h = ground arith

strip_0x-C : (t : Text) → strip_0x (b'C' ∷ t) ≡ b'C' ∷ t
unfolding strip_0x
strip_0x-C [] = refl
strip_0x-C (c ∷ t) = refl

byte_len-base32 : (t : Text) → all is_base32 t ≡ true → byte_len t ≡ length t
unfolding byte_len utf8_width
byte_len-base32 [] h = refl
byte_len-base32 (c ∷ t) h = ground (arith, byte_len-base32 t)

width-C : (t : Text) → length t ≡ 55 → all is_base32 t ≡ true → byte_len (b'C' ∷ t) ≡ 56
unfolding byte_len utf8_width
width-C t n h = omega (arith, byte_len-base32 t h)

pub normalize-IsContractStrkey :
    (K : Strkey) (s : Text) (id : Bytes)
    → IsContractStrkey s
    → K.from_string s ≡ some id
    → normalize_contract_id K s ≡ ok (hex id)
unfolding normalize_contract_id normalize_trimmed starts_with_C
normalize-IsContractStrkey K s id w read =
    let from : b'C' ∷ w.rest ≡ s = sym (w.starts) in
    let whole : all is_base32 s ≡ true = subst (λ s. all is_base32 s ≡ true) from (w.base32) in
    let stripped : strip_0x s ≡ s = subst (λ s. strip_0x s ≡ s) from (strip_0x-C (w.rest)) in
    let width : byte_len s ≡ 56 =
      subst (λ s. byte_len s ≡ 56) from (width-C (w.rest) (w.width) (w.base32)) in
    let letter : starts_with_C s ≡ true = subst (λ s. starts_with_C s ≡ true) from refl in
    rw (trim-all is_base32 base32-is_whitespace s whole)
      (rw stripped (rw width (rw letter (rw read refl))))

-- What an upgrade of the chain is decoded to.
abbrev pub chain_event : Text → ℕ → Text → Text → UpgradeEvent
chain_event contract_hex i old new = record {
  ledger = ledger_of i;
  closed_at = closed_at_of i;
  tx_hash = tx_hash_of i;
  contract = contract_hex;
  old_wasm = to_ascii_lowercase old;
  new_wasm = to_ascii_lowercase new;
}

length-executable_update : length executable_update ≡ 17
unfolding executable_update text
length-executable_update = refl

ledger_of-small : (i : ℕ) → ledger_of i < 2 ^ 32
unfolding ledger_of
ledger_of-small i = omega arith

ledger_cut : (i : ℕ) → ledger_of i % 2 ^ 32 ≡ ledger_of i
ledger_cut i = omega (arith, ledger_of-small i)

module _ (S : Services) (laws : ServicesLaws S) (id : Bytes) (strkey : HasStrkey S.strkey id) where
  abbrev contract_strkey : Text
  contract_strkey = S.strkey.to_string id

  update_topic :
      is_executable_update S.base64 (symbol_scval_b64 S.base64 executable_update) ≡ ok true
  update_topic =
      is_executable_update-symbol_scval_b64 S.base64 laws.base64_laws executable_update
        (rw length-executable_update (ground arith))
      ∙ ap ok (==_refl executable_update)

  normal : normalize_contract_id S.strkey contract_strkey ≡ ok (hex id)
  normal =
      normalize-IsContractStrkey S.strkey contract_strkey id (strkey.is_strkey) (strkey.reads_back)

  -- With its two topics.
  pub decode_upgrade_event-event_object :
      (i : ℕ) (old new t1 t2 : Text)
      → wasm_scval_b64 S.base64 old ≡ ok t1
      → wasm_scval_b64 S.base64 new ≡ ok t2
      → decode_upgrade_event S (event_object S contract_strkey i t1 t2)
        ≡ ok (chain_event (hex id) i old new)
  unfolding event_object decode_upgrade_event event_topics text_field ledger_field contract_field
      normalize_field
  decode_upgrade_event-event_object i old new t1 t2 h k =
      let J = laws.json_laws in
      let B = laws.base64_laws in
      rw (field_array J _ "topic" _ refl) (
        rw (J.as_str-string (symbol_scval_b64 S.base64 executable_update)) (
          rw update_topic (
            rw (J.as_str-string t1) (
              rw (J.as_str-string t2) (
                rw (field_str J _ "contractId" contract_strkey refl) (
                  rw normal (
                    rw (decode_wasm_executable-wasm_scval_b64 S.base64 B old h) (
                      rw (decode_wasm_executable-wasm_scval_b64 S.base64 B new k) (
                        rw (J.get-object _ "ledger") (
                          rw (J.as_u64-number (ledger_of i) (omega (arith, ledger_of-small i))) (
                            rw (ledger_cut i) (
                              rw (field_str J _ "ledgerClosedAt" (closed_at_of i) refl)
                                (rw (field_str J _ "txHash" (tx_hash_of i) refl) refl)))))))))))))

  pub id_field :
      (i : ℕ) (t1 t2 : Text)
      → text_field S (event_object S contract_strkey i t1 t2) "id" ≡ event_id_of (ledger_of i)
  unfolding event_object text_field
  id_field i t1 t2 = rw (field_str laws.json_laws _ "id" (event_id_of (ledger_of i)) refl) refl
