-- ===== src/Audit/Command.antt =====
-- The command `onchain-audit` of src/main.rs, without what it prints.
pub mod Covers
use sorseal.Base.{
  ℕ, [], ◌∷◌, Option, none, some, not, ◌&&◌, if◌then◌else◌, ltb, Text, Result, ok, ◌>>=◌, ◌>>◌,
  bail_if, txt, text, num,
}
use sorseal.Interfaces.Drive.{Drive}
use sorseal.Interfaces.Services.{Services, Transport}
use sorseal.Provenance.{Provenance}
use sorseal.Provenance.File.{load}
use sorseal.Onchain.ContractId.{normalize_contract_id}
use sorseal.Onchain.Verify.{fetch_deployed_wasm_hash}
use sorseal.Audit.Scan.{scan_upgrade_events}
use sorseal.Audit.Window.{rpc_ledger_window}
use sorseal.Audit.Lineage.{AuditReport, build_audit}

-- The record is optional: without the file there is none.
unfoldable pub record_at :
    (D : Drive) → (Text → Option Provenance) → D.State → Text → Result (Option Provenance)
record_at D from_str s path =
    if D.exists s path then (do p ← load D from_str s path; ok (some p)) else ok none

-- `--start-ledger`, not before what the node has.
unfoldable pub first_ledger : Option ℕ → ℕ → ℕ
first_ledger none oldest = oldest
first_ledger (some start) oldest = if ltb start oldest then oldest else start

-- `--end-ledger`, not behind what the node has.
unfoldable pub last_ledger : Option ℕ → ℕ → ℕ
last_ledger none latest = latest
last_ledger (some end) latest = if ltb latest end then latest else end

unfoldable pub audit_code : AuditReport → ℕ
audit_code report = if report.provenance_supplied && not report.current_attested then 1 else 0

-- The report and the exit code.
unfoldable pub onchain_audit_command :
    (S : Services)
    → Transport S
    → Text
    → Text
    → Option ℕ
    → Option ℕ
    → Result (Option Provenance)
    → Result (AuditReport × ℕ)
onchain_audit_command S post contract_id rpc_url start_ledger end_ledger provenance = do
  contract_hex ← normalize_contract_id S.strkey contract_id
  prov ← provenance
  (oldest, latest) ← rpc_ledger_window S post
  let start = first_ledger start_ledger oldest
  let end = last_ledger end_ledger latest
  bail_if (ltb end start)
      "--start-ledger {start} is after the effective end ledger {end} (--end-ledger {end_ledger:?} / RPC latest {latest})"
      (num start
        ∷ num end
        ∷ elim end_ledger [ none ↦ txt (text "None") | some e ↦ num e ]
        ∷ num latest
        ∷ [])
  events ← scan_upgrade_events S end contract_hex (λ page body. post body) start
  current ← fetch_deployed_wasm_hash S post contract_id
  let report = build_audit contract_hex events current prov rpc_url (start, end)
  ok (report, audit_code report)
