-- ===== src/Sim/Simulate/Reports.antt =====
-- What the simulated check and audit of src/main.rs report of a ledger of src/sim.rs.
use sorseal.Base.{
  ℕ, ◌+◌, ◌*◌, ◌^◌, ◌≡◌, ◌≤◌, ◌<◌, ◌↔◌, refl, ap, sym, ◌∙◌, subst, true, false, List, [], ◌∷◌,
  Option, none, some, ltb, length, filter, ◌==◌, text_eq, text, Text, Bytes, to_ascii_lowercase, ok,
  arith, Bool-cases, inl, inr,
}
use mathlib.Core.List.{append-nil}
use sorseal.Digest.Hex.{hex}
use sorseal.Interfaces.Encodings.{HasStrkey}
use sorseal.Interfaces.Services.{Services, ServicesLaws}
use sorseal.Provenance.{Provenance}
use sorseal.Onchain.ContractId.{hex_to_bytes}
use sorseal.Onchain.ContractId.Normal.{HoldsIds, normalize_contract_id-IsNormalId}
use sorseal.Onchain.Verify.{
  OnChainCheck, choose_artifact, verify_contract, fetch_deployed_wasm_hash, entries_request,
}
use sorseal.Audit.Lineage.{AuditReport, build_audit}
use sorseal.Audit.Lineage.Verdict.{Covered, build_audit_verdict}
use sorseal.Audit.Scan.{max_pages, scan_upgrade_events}
use sorseal.Audit.Scan.Complete.{Served, raws, Fresh, events_of}
use sorseal.Audit.Scan.History.{
  Serves, stop, last_page, Ascending, in_window, history, scan_upgrade_events-Serves,
}
use sorseal.Sim.Encode.{hex_bytes}
use sorseal.Sim.RoundTrip.{hex_bytes-eq-ok}
use sorseal.Sim.Deployed.{Deploys, fetch_deployed_wasm_hash-Deploys, verify_contract-Deploys}
use sorseal.Sim.Ledger.{
  MockLedger, upgrade_chain, mock_post, entries_response, ledger_from_provenance_with_current,
}
use sorseal.Sim.Ledger.Chain.{AllBefore}
use sorseal.Sim.Ledger.Upgrades.{
  chain_events, chain_events-Ascending, ServesChain, upgrade_events-ServesChain,
}
use sorseal.Sim.Ledger.Built.{current_wasm, Built, ledger-Built}
use sorseal.Sim.Ledger.Answered.{
  rpc_ledger_window-mock_post, mock_post-Answers, mock_post-entries_request, entries_response-error,
  entry_of_response-entries_response,
}
use sorseal.Sim.Simulate.Lineage.{EndsIn, IsLineage-chain_events, find-last_id, filter-chain_events}
use sorseal.Sim.Simulate.{last_id, full_audit, simulate_onchain}

hex_bytes-hex_to_bytes : (s : Text) {id : Bytes} → hex_bytes s ≡ ok id → hex_to_bytes s ≡ ok id
unfolding hex_bytes hex_to_bytes
hex_bytes-hex_to_bytes s h = ground arith

AllBefore-nil : (n : ℕ) → AllBefore n []
AllBefore-nil n = tt

module _ (S : Services) (laws : ServicesLaws S) (ids : HoldsIds S.strkey) (p : Provenance)
    (contract_id : Text) (upgrades : Option ℕ) (deploy : Option Text) (l : MockLedger S)
    (b : Built S p contract_id upgrades deploy l)
    (strkeys : (id : Bytes) → hex_bytes l.contract_hex ≡ ok id → HasStrkey S.strkey id)
    (small : length (upgrade_chain p upgrades) < 3999000) where
  abbrev pub hashes : List Text
  hashes = upgrade_chain p upgrades

  abbrev pub deployed : Text
  deployed = to_ascii_lowercase (current_wasm p upgrades deploy)

  hex_is : hex b.id ≡ l.contract_hex
  hex_is =
      let (normal, again) = normalize_contract_id-IsNormalId S.strkey ids contract_id (b.normal) in
      (hex_bytes-eq-ok l.contract_hex (b.id_is)).2 ∙ normal.lower

  latest_is : 1000 + length hashes * 1000 ≤ l.latest_ledger
  latest_is = rw (b.latest) (elim (Bool-cases (ltb (length hashes) 1)) [
    | inl none_there ↦ rw none_there (ground arith)
    | inr some_there ↦ rw some_there (omega arith)
  ])

  pub latest_small : l.latest_ledger < 2 ^ 32
  latest_small = rw (b.latest) (omega arith)

  -- The window is not empty.
  pub oldest_first : ltb l.latest_ledger l.oldest_ledger ≡ false
  oldest_first = rw (b.oldest) (ground (arith, latest_is))

  serves_chain : ServesChain S laws b.id (strkeys b.id (b.id_is)) 1 hashes l.events
  serves_chain =
      upgrade_events-ServesChain S laws b.id (strkeys b.id (b.id_is)) 1 hashes l.events
        (omega arith) (b.events_are)

  deploys : Deploys S (mock_post S l) contract_id l.contract_hex l.current_entry_b64
  deploys = record {
    id = b.id;
    normal = b.normal;
    id_is = hex_bytes-hex_to_bytes l.contract_hex (b.id_is);
    response = entries_response S l (entries_request S b.id);
    gives = mock_post-entries_request S laws l b.id;
    no_error = entries_response-error S laws l (entries_request S b.id);
    entry_is = entry_of_response-entries_response S laws l contract_id (entries_request S b.id);
  }

  pub fetched : fetch_deployed_wasm_hash S (mock_post S l) contract_id ≡ ok deployed
  fetched =
      fetch_deployed_wasm_hash-Deploys S laws.base64_laws (mock_post S l) contract_id l.contract_hex
        (current_wasm p upgrades deploy) l.current_entry_b64 deploys (b.entry_is)

  -- The history on one page, or none.
  serves :
      (page : List (Served S))
      → raws page ≡ l.events
      → (ps : List (List (Served S))) × Serves S (λ n v. mock_post S l v) l.oldest_ledger 0 none ps
        × (history ps ≡ page)
        × (length ps < max_pages)
  serves [] e = (
    [],
    stop (
        mock_post-Answers S laws l l.oldest_ledger 0 [] (omega arith) (rw (b.oldest) (omega arith))
          e),
    refl,
    omega arith,
  )
  serves (x ∷ page) e = (
    (x ∷ page) ∷ [],
    last_page (
        mock_post-Answers S laws l l.oldest_ledger 0 (x ∷ page) (omega arith)
          (rw (b.oldest) (omega arith)) e),
    append-nil (x ∷ page),
    omega arith,
  )

  pub scanned :
      scan_upgrade_events S l.latest_ledger l.contract_hex (λ n v. mock_post S l v) l.oldest_ledger
      ≡ ok (chain_events l.contract_hex 1 hashes)
  scanned =
      let sc = serves_chain in
      let (ps, v, hist, few) = serves (sc.served) (sc.raws_are) in
      let evs : events_of (history ps) ≡ chain_events l.contract_hex 1 hashes =
        ap events_of hist ∙ sc.events_are ∙ ap (λ h. chain_events h 1 hashes) hex_is in
      let fresh : Fresh [] (history ps) =
        subst (Fresh []) (sym hist) (sc.fresh [] (AllBefore-nil 2000)) in
      let up : Ascending (events_of (history ps)) =
        subst Ascending (sym evs) (chain_events-Ascending l.contract_hex 1 hashes (omega arith)) in
      scan_upgrade_events-Serves S l.latest_ledger l.contract_hex (λ n v. mock_post S l v)
        l.oldest_ledger ps v few fresh up
      ∙ ap ok (
          ap (filter (in_window l.latest_ledger l.contract_hex)) evs
          ∙ filter-chain_events l.latest_ledger l.contract_hex 1 hashes (omega arith)
              (omega (arith, latest_is)))

  -- The audit of the whole window.
  abbrev pub report_of : Text → AuditReport
  report_of rpc_url =
      build_audit l.contract_hex (chain_events l.contract_hex 1 hashes) deployed (some p) rpc_url
        (l.oldest_ledger, l.latest_ledger)

  pub audited :
      (rpc_url : Text)
      → full_audit S (mock_post S l) p contract_id l.contract_hex rpc_url ≡ ok (report_of rpc_url)
  unfolding full_audit
  audited rpc_url =
      rw
        (rpc_ledger_window-mock_post S laws l (rw (b.oldest) (omega arith))
          (rw (b.oldest) (omega arith)) latest_small)
        (rw scanned (rw fetched refl))

  -- The check of the last artifact.
  pub checked :
      (check : OnChainCheck) × (verify_contract S
          (mock_post S l)
          p
          contract_id
          (last_id p.artifacts)
        ≡ ok check)
      × (check.deployed_wasm_sha256 ≡ deployed)
  unfolding choose_artifact
  checked =
      let (id, art, is_last, found) = find-last_id p.artifacts (b.some_artifact) in
      let chosen : choose_artifact (last_id p.artifacts) p ≡ ok art = rw is_last (rw found refl) in
      (
        record {
          contract_id = l.contract_hex;
          deployed_wasm_sha256 = deployed;
          sealed_wasm_sha256 = to_ascii_lowercase art.wasm_sha256;
          match_ = deployed == to_ascii_lowercase art.wasm_sha256;
        },
        verify_contract-Deploys S laws.base64_laws (mock_post S l) p contract_id
            (last_id p.artifacts) art l.contract_hex (current_wasm p upgrades deploy)
            l.current_entry_b64 chosen deploys (b.entry_is),
        refl,
      )

-- Under the laws of the libraries, where strkeys hold 32 bytes and that of the contract is read as its id: where a
-- ledger is built of a provenance record whose chain has fewer than 3,999,000 hashes, the simulation has a result. The check and the audit see the hash that was deployed, in lower
-- case; the audit lists exactly the upgrades from each hash of the chain to the next, and calls the chain consistent
-- exactly when it has no upgrade or ends in the deployed hash, and the deployment attested exactly when a sealed
-- artifact has this hash.
pub simulate_onchain-chain_events :
    (S : Services) (laws : ServicesLaws S) (ids : HoldsIds S.strkey) (p : Provenance)
    (contract_id : Text) (upgrades : Option ℕ) (deploy : Option Text) (l : MockLedger S)
    → ledger_from_provenance_with_current S p contract_id upgrades deploy ≡ ok l
    → ((id : Bytes) → hex_bytes l.contract_hex ≡ ok id → HasStrkey S.strkey id)
    → length (upgrade_chain p upgrades) < 3999000
    → let hashes = upgrade_chain p upgrades in
      let deployed = to_ascii_lowercase (current_wasm p upgrades deploy) in
      (check : OnChainCheck) × (report : AuditReport) × (simulate_onchain S p contract_id upgrades
          deploy
        ≡ ok (check, report))
      × (check.deployed_wasm_sha256 ≡ deployed)
      × (report.events ≡ chain_events l.contract_hex 1 hashes)
      × ((report.chain_consistent ≡ true) ↔ EndsIn deployed hashes)
      × ((report.current_attested ≡ true) ↔ Covered (some p) deployed)
unfolding simulate_onchain build_audit
simulate_onchain-chain_events S laws ids p contract_id upgrades deploy l built strkeys small =
    let b = ledger-Built S p contract_id upgrades deploy l built in
    let (check, checks, sees) =
      checked S laws ids p contract_id upgrades deploy l b strkeys small in
    let url = text "mock://local" in
    let hashes = upgrade_chain p upgrades in
    let deployed = to_ascii_lowercase (current_wasm p upgrades deploy) in
    let events = chain_events l.contract_hex 1 hashes in
    let verdict =
      build_audit_verdict l.contract_hex events deployed (some p) url
        (l.oldest_ledger, l.latest_ledger) in
    let ends = IsLineage-chain_events l.contract_hex deployed 1 hashes in
    (
      check,
      report_of S laws ids p contract_id upgrades deploy l b strkeys small url,
      rw built (
          rw (b.normal) (
            rw checks
              (rw (audited S laws ids p contract_id upgrades deploy l b strkeys small url) refl))),
      sees,
      refl,
      ((λ h. ends.0 (verdict.0.0 h)), (λ h. verdict.0.1 (ends.1 h))),
      verdict.1,
    )
