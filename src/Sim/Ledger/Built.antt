-- ===== src/Sim/Ledger/Built.antt =====
-- A ledger that `ledger_from_provenance_with_current` of src/sim.rs has built.
use sorseal.Base.{
  ℕ, ◌+◌, ◌*◌, ◌%◌, ◌^◌, ◌≡◌, refl, false, subst, Option, List, if◌then◌else◌, ltb, length, Text,
  Bytes, ok, >>=-eq-ok, bail_if_then-eq-ok, with_context, with_context-eq-ok, unwrap_or, arith,
}
use sorseal.Interfaces.Services.{Services}
use sorseal.Provenance.{Provenance}
use sorseal.Onchain.ContractId.{normalize_contract_id}
use sorseal.Audit.Lineage.{is_nil}
use sorseal.Sim.Encode.{contract_instance_entry_b64, hex_bytes}
use sorseal.Sim.Ledger.{
  MockLedger, last_or_empty, upgrade_events, upgrade_chain, ledger_from_provenance_with_current,
}

-- The hash that is deployed: the one that is given, or the last of the chain.
abbrev pub current_wasm : Provenance → Option ℕ → Option Text → Text
current_wasm p upgrades current_wasm_override =
    unwrap_or current_wasm_override (last_or_empty (upgrade_chain p upgrades))

module _ (S : Services) (p : Provenance) (contract_id : Text) (upgrades : Option ℕ)
    (deploy : Option Text) where
  abbrev hashes : List Text
  hashes = upgrade_chain p upgrades

  abbrev deployed : Text
  deployed = current_wasm p upgrades deploy

  pub record Built (l : MockLedger S) : Type 0 where
    pub normal : normalize_contract_id S.strkey contract_id ≡ ok l.contract_hex
    pub some_artifact : is_nil p.artifacts ≡ false
    pub id : Bytes
    pub id_is : hex_bytes l.contract_hex ≡ ok id
    pub events_are : upgrade_events S (S.strkey.to_string id) 1 hashes ≡ ok l.events
    pub entry_is :
        contract_instance_entry_b64 S.base64 l.contract_hex deployed ≡ ok l.current_entry_b64
    pub oldest : l.oldest_ledger ≡ 900
    pub latest :
        l.latest_ledger
        ≡ (1000 + (if ltb (length hashes) 1 then 1 else length hashes) % 2 ^ 32 * 1000 % 2 ^ 32)
          % 2 ^ 32

  pub ledger-Built :
      (l : MockLedger S)
      → ledger_from_provenance_with_current S p contract_id upgrades deploy ≡ ok l
      → Built l
  unfolding ledger_from_provenance_with_current
  ledger-Built l h =
      let (contract_hex, normal, h) = >>=-eq-ok (normalize_contract_id S.strkey contract_id) _ h in
      let (some_artifact, h) = bail_if_then-eq-ok (is_nil p.artifacts) _ _ _ h in
      let (id, id_is, h) = >>=-eq-ok (with_context (hex_bytes contract_hex) _ _) _ h in
      let (events, events_are, h) =
        >>=-eq-ok (upgrade_events S (S.strkey.to_string id) 1 hashes) _ h in
      let (entry, entry_is, h) =
        >>=-eq-ok (contract_instance_entry_b64 S.base64 contract_hex deployed) _ h in
      subst Built (ground (arith, h)) (record {
        normal = normal;
        some_artifact = some_artifact;
        id = id;
        id_is = with_context-eq-ok (hex_bytes contract_hex) _ _ id_is;
        events_are = events_are;
        entry_is = entry_is;
        oldest = refl;
        latest = refl;
      })
