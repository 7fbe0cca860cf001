-- ===== src/Sim/Simulate/Audited.antt =====
-- `onchain-audit` of src/main.rs against a ledger of src/sim.rs.
use sorseal.Base.{
  ℕ, ◌≡◌, ◌↔◌, ◌<◌, refl, true, Option, none, ◌⊎◌, length, Text, Bytes, to_ascii_lowercase, ok,
  arith,
}
use sorseal.Interfaces.Encodings.{HasStrkey}
use sorseal.Interfaces.Services.{Services, ServicesLaws}
use sorseal.Provenance.{Provenance}
use sorseal.Onchain.ContractId.Normal.{HoldsIds}
use sorseal.Audit.Lineage.{AuditReport, build_audit}
use sorseal.Audit.Lineage.Verdict.{Covered, build_audit_verdict}
use sorseal.Audit.Command.{first_ledger, last_ledger, audit_code, onchain_audit_command}
use sorseal.Audit.Command.Covers.{audit_code-build_audit}
use sorseal.Sim.Encode.{hex_bytes}
use sorseal.Sim.Ledger.{MockLedger, upgrade_chain, mock_post, ledger_from_provenance_with_current}
use sorseal.Sim.Ledger.Upgrades.{chain_events}
use sorseal.Sim.Ledger.Built.{current_wasm, ledger-Built}
use sorseal.Sim.Ledger.Answered.{rpc_ledger_window-mock_post}
use sorseal.Sim.Simulate.Lineage.{EndsIn, IsLineage-chain_events}
use sorseal.Sim.Simulate.Reports.{scanned, fetched, latest_small, oldest_first}

-- Under the laws of the libraries, where strkeys hold 32 bytes and that of the contract is read as its id: `onchain-audit`
-- against the ledger that is built of a record whose chain has fewer than 3,999,000 hashes, with options that do not
-- narrow the window and with any record or none, has a result. The report lists exactly the upgrades of the chain, and
-- calls it consistent exactly when it has no upgrade or ends in the deployed hash. Consistent or not, the exit code is 0
-- exactly where no record was given or an artifact of it has the deployed hash.
pub onchain_audit_command-mock_post :
    (S : Services) (laws : ServicesLaws S) (ids : HoldsIds S.strkey) (p : Provenance)
    (contract_id : Text) (upgrades : Option ℕ) (deploy : Option Text) (l : MockLedger S)
    (rpc_url : Text) (start_ledger end_ledger : Option ℕ) (record_given : Option Provenance)
    → ledger_from_provenance_with_current S p contract_id upgrades deploy ≡ ok l
    → ((id : Bytes) → hex_bytes l.contract_hex ≡ ok id → HasStrkey S.strkey id)
    → length (upgrade_chain p upgrades) < 3999000
    → first_ledger start_ledger l.oldest_ledger ≡ l.oldest_ledger
    → last_ledger end_ledger l.latest_ledger ≡ l.latest_ledger
    → (report : AuditReport) × (code : ℕ) × (onchain_audit_command S
          (mock_post S l)
          contract_id
          rpc_url
          start_ledger
          end_ledger
          (ok record_given)
        ≡ ok (report, code))
      × (report.events ≡ chain_events l.contract_hex 1 (upgrade_chain p upgrades))
      × ((report.chain_consistent ≡ true)
          ↔ EndsIn (to_ascii_lowercase (current_wasm p upgrades deploy)) (upgrade_chain p upgrades))
      × ((code ≡ 0) ↔ (
          (record_given ≡ none)
          ⊎ Covered record_given (to_ascii_lowercase (current_wasm p upgrades deploy))))
unfolding onchain_audit_command build_audit
onchain_audit_command-mock_post S laws ids p contract_id upgrades deploy l rpc_url start_ledger
      end_ledger q built strkeys small starts ends =
    let b = ledger-Built S p contract_id upgrades deploy l built in
    let hashes = upgrade_chain p upgrades in
    let deployed = to_ascii_lowercase (current_wasm p upgrades deploy) in
    let events = chain_events l.contract_hex 1 hashes in
    let window : ℕ × ℕ = (l.oldest_ledger, l.latest_ledger) in
    let verdict = build_audit_verdict l.contract_hex events deployed q rpc_url window in
    let ends_in = IsLineage-chain_events l.contract_hex deployed 1 hashes in
    let asks =
      rpc_ledger_window-mock_post S laws l (rw (b.oldest) (omega arith))
        (rw (b.oldest) (omega arith))
        (latest_small S laws ids p contract_id upgrades deploy l b strkeys small) in
    let opens = oldest_first S laws ids p contract_id upgrades deploy l b strkeys small in
    let scans = scanned S laws ids p contract_id upgrades deploy l b strkeys small in
    let fetches = fetched S laws ids p contract_id upgrades deploy l b strkeys small in
    (
      build_audit l.contract_hex events deployed q rpc_url window,
      audit_code (build_audit l.contract_hex events deployed q rpc_url window),
      rw (b.normal) (rw asks (rw starts (rw ends (rw opens (rw scans (rw fetches refl)))))),
      refl,
      ((λ h. ends_in.0 (verdict.0.0 h)), (λ h. verdict.0.1 (ends_in.1 h))),
      audit_code-build_audit l.contract_hex events deployed q rpc_url window,
    )
