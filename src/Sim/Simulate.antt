-- ===== src/Sim/Simulate.antt =====
-- The command `simulate-onchain` of src/main.rs, without what it prints.
pub mod Lineage
pub mod Reports
pub mod Audited
use sorseal.Base.{ℕ, List, [], ◌∷◌, Option, none, some, Text, text, Result, ok, ◌>>=◌}
use sorseal.Interfaces.Services.{Services, Transport}
use sorseal.Provenance.{ArtifactProvenance, Provenance}
use sorseal.Onchain.ContractId.{normalize_contract_id}
use sorseal.Onchain.Verify.{OnChainCheck, fetch_deployed_wasm_hash, verify_contract}
use sorseal.Audit.Scan.{scan_upgrade_events}
use sorseal.Audit.Window.{rpc_ledger_window}
use sorseal.Audit.Lineage.{AuditReport, build_audit}
use sorseal.Sim.Ledger.{MockLedger, mock_post, ledger_from_provenance_with_current}

-- `artifacts.last().map(|a| a.id.clone())`.
unfoldable pub last_id : List ArtifactProvenance → Option Text
last_id [] = none
last_id (a ∷ []) = some a.id
last_id (a ∷ b ∷ l) = last_id (b ∷ l)

module _ (S : Services) where
  -- The audit of a contract over the whole window of the node.
  unfoldable pub full_audit : Transport S → Provenance → Text → Text → Text → Result AuditReport
  full_audit post p contract_id contract_hex rpc_url = do
    (oldest, latest) ← rpc_ledger_window S post
    events ← scan_upgrade_events S latest contract_hex (λ page body. post body) oldest
    current ← fetch_deployed_wasm_hash S post contract_id
    ok (build_audit contract_hex events current (some p) rpc_url (oldest, latest))

  unfoldable pub simulate_onchain :
      Provenance → Text → Option ℕ → Option Text → Result (OnChainCheck × AuditReport)
  simulate_onchain p contract_id upgrades deploy_wasm = do
    ledger ← ledger_from_provenance_with_current S p contract_id upgrades deploy_wasm
    let post = mock_post S ledger
    contract_hex ← normalize_contract_id S.strkey contract_id
    check ← verify_contract S post p contract_id (last_id p.artifacts)
    report ← full_audit post p contract_id contract_hex (text "mock://local")
    ok (check, report)
