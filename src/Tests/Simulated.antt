-- ===== src/Tests/Simulated.antt =====
-- The simulation of a chain of two hashes.
use sorseal.Base.{
  ℕ, ◌≡◌, ◌↔◌, refl, true, List, [], ◌∷◌, Option, none, some, if◌then◌else◌, ◌==◌, text_eq, length,
  replicate, Text, Bytes, to_ascii_lowercase, ok, err, panic, Result, arith, All, Bool-cases, inl,
  inr, ◌⊎◌, subst, sym, ap, ◌∙◌, ◌<◌,
}
use sorseal.Digest.Hex.{IsByte}
use sorseal.Interfaces.Encodings.{Strkey, HasStrkey}
use sorseal.Interfaces.Services.{Services, ServicesLaws}
use sorseal.Provenance.{Provenance}
use sorseal.Onchain.ContractId.Normal.{HoldsIds}
use sorseal.Onchain.Verify.{OnChainCheck}
use sorseal.Audit.Lineage.{AuditReport}
use sorseal.Audit.Lineage.Verdict.{Covered}
use sorseal.Sim.Encode.{hex_bytes}
use sorseal.Sim.Ledger.{mock_post, MockLedger, upgrade_chain, ledger_from_provenance_with_current}
use sorseal.Sim.Ledger.Upgrades.{chain_events}
use sorseal.Sim.Ledger.Built.{current_wasm}
use sorseal.Sim.Simulate.{simulate_onchain}
use sorseal.Sim.Simulate.Audited.{onchain_audit_command-mock_post}
use sorseal.Audit.Command.{first_ledger, last_ledger, onchain_audit_command}
use sorseal.Sim.Simulate.Lineage.{EndsIn}
use sorseal.Sim.Simulate.Reports.{simulate_onchain-chain_events}
use sorseal.Tests.Concrete.{json_values, plain_base64, plain_services_laws}
use sorseal.Tests.Ids.{id_bytes, lower_id}
use sorseal.Tests.Records.{digest_b, sealed_artifact, sealed_record}

abbrev the_strkey : Text
the_strkey = b'C' ∷ replicate 55 b'A'

-- The strkey of one contract.
abbrev one_strkey : Strkey
one_strkey = record {
  from_string = λ s. if s == the_strkey then some id_bytes else none;
  to_string = λ id. the_strkey;
}

abbrev services : Services
services = record { json = json_values; base64 = plain_base64; strkey = one_strkey }

services_laws : ServicesLaws services
services_laws = record {
  json_laws = plain_services_laws.json_laws;
  base64_laws = plain_services_laws.base64_laws;
}

abbrev two_artifacts : Provenance
two_artifacts = record sealed_record {
  artifacts =
      sealed_artifact ∷ (record sealed_artifact { id = b'd' ∷ []; wasm_sha256 = digest_b }) ∷ [];
}

abbrev empty_ledger : MockLedger services
empty_ledger = record {
  contract_hex = [];
  current_entry_b64 = [];
  events = [];
  oldest_ledger = 0;
  latest_ledger = 0;
}

abbrev ledger_in : Result (MockLedger services) → MockLedger services
ledger_in (ok l) = l
ledger_in (err e) = empty_ledger
ledger_in panic = empty_ledger

abbrev the_ledger : MockLedger services
the_ledger =
    ledger_in (ledger_from_provenance_with_current services two_artifacts lower_id none none)

ledger_built :
    ledger_from_provenance_with_current services two_artifacts lower_id none none ≡ ok the_ledger
unfolding ledger_from_provenance_with_current sorseal.Onchain.ContractId.normalize_contract_id
    sorseal.Base.byte_len sorseal.Base.is_ascii_hexdigit hex_bytes to_ascii_lowercase
    sorseal.Sim.Ledger.upgrade_events upgrade_chain sorseal.Sim.Ledger.upgrade_event
    sorseal.Sim.Encode.wasm_scval_b64 sorseal.Sim.Encode.contract_instance_entry_b64
    sorseal.Sim.Ledger.last_or_empty
ledger_built = refl

holds_ids : HoldsIds one_strkey
holds_ids s raw h = elim (Bool-cases (s == the_strkey)) [
  | inl same ↦
      let is : id_bytes ≡ raw =
        ground (arith, subst (λ b. (if b then some id_bytes else none) ≡ some raw) same h) in
      subst (λ r. (length r ≡ 32) × All IsByte r) is (refl, ground arith)
  | inr other ↦
      let never : ◌≡◌ {A = Option Bytes} none (some raw) =
        subst (λ b. (if b then some id_bytes else none) ≡ some raw) other h in
      cc
]

the_id : hex_bytes lower_id ≡ ok id_bytes
unfolding hex_bytes sorseal.Onchain.ContractId.is_hex_id sorseal.Base.byte_len
    sorseal.Base.is_ascii_hexdigit sorseal.Digest.Hex.parse_pairs
the_id = refl

its_hex : the_ledger.contract_hex ≡ lower_id
unfolding ledger_from_provenance_with_current sorseal.Onchain.ContractId.normalize_contract_id
    sorseal.Base.byte_len sorseal.Base.is_ascii_hexdigit hex_bytes to_ascii_lowercase
    sorseal.Sim.Ledger.upgrade_events upgrade_chain sorseal.Sim.Ledger.upgrade_event
    sorseal.Sim.Encode.wasm_scval_b64 sorseal.Sim.Encode.contract_instance_entry_b64
    sorseal.Sim.Ledger.last_or_empty
its_hex = refl

has_strkey : HasStrkey one_strkey id_bytes
has_strkey = record {
  reads_back = refl;
  is_strkey = record { rest = replicate 55 b'A'; starts = refl; width = refl; base32 = refl };
}

strkeys : (id : Bytes) → hex_bytes the_ledger.contract_hex ≡ ok id → HasStrkey one_strkey id
strkeys id h =
    let is : ok id_bytes ≡ ok id = sym the_id ∙ ap hex_bytes (sym its_hex) ∙ h in
    subst (HasStrkey one_strkey) (ground (arith, is)) has_strkey

two_hashes : length (upgrade_chain two_artifacts none) < 3999000
unfolding upgrade_chain
two_hashes = omega arith

simulate_onchain-chain_events_example :
    let hashes = upgrade_chain two_artifacts none in
    let deployed = to_ascii_lowercase (current_wasm two_artifacts none none) in
    (check : OnChainCheck) × (report : AuditReport) × (simulate_onchain services two_artifacts
        lower_id none none
      ≡ ok (check, report))
    × (check.deployed_wasm_sha256 ≡ deployed)
    × (report.events ≡ chain_events the_ledger.contract_hex 1 hashes)
    × ((report.chain_consistent ≡ true) ↔ EndsIn deployed hashes)
    × ((report.current_attested ≡ true) ↔ Covered (some two_artifacts) deployed)
simulate_onchain-chain_events_example =
    simulate_onchain-chain_events services services_laws holds_ids two_artifacts lower_id none none
      the_ledger ledger_built strkeys two_hashes

starts_at : first_ledger (some 1) the_ledger.oldest_ledger ≡ the_ledger.oldest_ledger
unfolding first_ledger ledger_from_provenance_with_current
    sorseal.Onchain.ContractId.normalize_contract_id sorseal.Base.byte_len
    sorseal.Base.is_ascii_hexdigit hex_bytes to_ascii_lowercase sorseal.Sim.Ledger.upgrade_events
    upgrade_chain sorseal.Sim.Ledger.upgrade_event sorseal.Sim.Encode.wasm_scval_b64
    sorseal.Sim.Encode.contract_instance_entry_b64 sorseal.Sim.Ledger.last_or_empty
starts_at = refl

ends_at : last_ledger (some 4000000000) the_ledger.latest_ledger ≡ the_ledger.latest_ledger
unfolding last_ledger ledger_from_provenance_with_current
    sorseal.Onchain.ContractId.normalize_contract_id sorseal.Base.byte_len
    sorseal.Base.is_ascii_hexdigit hex_bytes to_ascii_lowercase sorseal.Sim.Ledger.upgrade_events
    upgrade_chain sorseal.Sim.Ledger.upgrade_event sorseal.Sim.Encode.wasm_scval_b64
    sorseal.Sim.Encode.contract_instance_entry_b64 sorseal.Sim.Ledger.last_or_empty
ends_at = refl

onchain_audit_command-mock_post_example :
    (report : AuditReport) × (code : ℕ) × (onchain_audit_command services
        (mock_post services the_ledger)
        lower_id
        []
        (some 1)
        (some 4000000000)
        (ok (some sealed_record))
      ≡ ok (report, code))
    × (report.events ≡ chain_events the_ledger.contract_hex 1 (upgrade_chain two_artifacts none))
    × ((report.chain_consistent ≡ true)
        ↔ EndsIn
            (to_ascii_lowercase (current_wasm two_artifacts none none))
            (upgrade_chain two_artifacts none))
    × ((code ≡ 0) ↔ (
        (◌≡◌ {A = Option Provenance} (some sealed_record) none)
        ⊎ Covered (some sealed_record) (to_ascii_lowercase (current_wasm two_artifacts none none))))
onchain_audit_command-mock_post_example =
    onchain_audit_command-mock_post services services_laws holds_ids two_artifacts lower_id none
      none the_ledger [] (some 1) (some 4000000000) (some sealed_record) ledger_built strkeys
      two_hashes starts_at ends_at
