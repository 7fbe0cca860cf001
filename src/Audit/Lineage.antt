-- ===== src/Audit/Lineage.antt =====
-- `collapse_noops` and `build_audit` of src/audit.rs. A hash in a message is kept whole, where the
-- source prints its first twelve digits.
pub mod Versions
pub mod Verdict
use sorseal.Base.{
  ℕ, ◌≡◌, ◌++◌, Bool, true, false, not, ◌&&◌, ◌||◌, List, [], ◌∷◌, map, Option, none, some,
  if◌then◌else◌, ◌==◌, text_eq, find, any, all, text, Text, to_ascii_lowercase, Message, msg, txt,
  num, and_then, unwrap_or,
}
use sorseal.Provenance.{ArtifactProvenance, Provenance}
use sorseal.Audit.Event.{UpgradeEvent}

pub record VersionRecord : Type 0 where
  pub wasm : Text
  pub current : Bool
  pub live_from : Option Text
  pub live_until : Option Text
  pub upgrade_tx : Option Text
  pub attested_by : Option Text

pub record AuditReport : Type 0 where
  pub contract_id : Text
  pub rpc_url : Text
  pub scan_window : ℕ × ℕ
  pub events : List UpgradeEvent
  pub versions : List VersionRecord
  pub chain_consistent : Bool
  pub current_attested : Bool
  pub provenance_supplied : Bool
  pub warnings : List Message

-- The warnings of the loop over `windows(2)`, one for each gap between neighbours.
unfoldable pub chain_gaps : List UpgradeEvent → List Message
chain_gaps [] = []
chain_gaps (e ∷ []) = []
chain_gaps (e ∷ f ∷ l) =
    let rest = chain_gaps (f ∷ l) in
    if not (e.new_wasm == f.old_wasm)
    then msg "inconsistent upgrade chain at ledger {}: {} -> {} then {} -> {}"
        (num f.ledger ∷ txt e.old_wasm ∷ txt e.new_wasm ∷ txt f.old_wasm ∷ txt f.new_wasm ∷ [])
      ∷ rest
    else rest

abbrev pub is_nil {ℓ} : {A : Type ℓ} → List A → Bool
is_nil [] = true
is_nil (x ∷ xs) = false

-- A version that no upgrade brought.
abbrev pub deployed : Text → Bool → Option Text → VersionRecord
deployed wasm current until = record {
  wasm = wasm;
  current = current;
  live_from = none;
  live_until = until;
  upgrade_tx = none;
  attested_by = none;
}

abbrev pub upgraded : UpgradeEvent → Bool → Option Text → VersionRecord
upgraded e current until = record {
  wasm = e.new_wasm;
  current = current;
  live_from = some e.closed_at;
  live_until = until;
  upgrade_tx = some e.tx_hash;
  attested_by = none;
}

-- The versions from an event on. The last one is current if it has the deployed hash; if it has
-- not, the deployed one is put behind it.
unfoldable pub versions_from : Text → UpgradeEvent → List UpgradeEvent → List VersionRecord
versions_from current_wasm e [] =
    if not (e.new_wasm == current_wasm)
    then upgraded e false none ∷ deployed current_wasm true none ∷ []
    else upgraded e true none ∷ []
versions_from current_wasm e (f ∷ l) =
    upgraded e false (some f.closed_at) ∷ versions_from current_wasm f l

unfoldable pub all_versions : Text → List UpgradeEvent → List VersionRecord
unfolding versions_from
all_versions current_wasm [] = deployed current_wasm true none ∷ []
all_versions current_wasm (e ∷ l) =
    deployed e.old_wasm false (some e.closed_at) ∷ versions_from current_wasm e l

-- Whether the deployed hash is not that of the newest upgrade.
unfoldable pub has_gap : Text → List UpgradeEvent → Bool
has_gap current_wasm [] = false
has_gap current_wasm (e ∷ []) = not (e.new_wasm == current_wasm)
has_gap current_wasm (e ∷ f ∷ l) = has_gap current_wasm (f ∷ l)

-- The loop of `collapse_noops`; `prev` is the last of the versions merged so far.
unfoldable pub collapse_from : VersionRecord → List VersionRecord → List VersionRecord
collapse_from prev [] = prev ∷ []
collapse_from prev (v ∷ l) = elim (prev.wasm == v.wasm) [
  | true ↦
      collapse_from (record prev { live_until = v.live_until; current = prev.current || v.current })
        l
  | false ↦ prev ∷ collapse_from v l
]

unfoldable pub collapse_noops : List VersionRecord → List VersionRecord
unfolding collapse_from
collapse_noops [] = []
collapse_noops (v ∷ l) = collapse_from v l

-- `eq_ignore_ascii_case`.
unfoldable pub same_hash : Text → Text → Bool
same_hash a b = to_ascii_lowercase a == to_ascii_lowercase b

-- The sealed artifact that covers a hash.
unfoldable pub matching_artifact : Option Provenance → Text → Option ArtifactProvenance
unfolding same_hash
matching_artifact provenance wasm = and_then provenance (λ (p : Provenance).
    find (λ (a : ArtifactProvenance). same_hash a.wasm_sha256 wasm) p.artifacts)

unfoldable pub attest : Option Provenance → VersionRecord → VersionRecord
attest provenance v = record v {
  attested_by =
      and_then (matching_artifact provenance v.wasm) (λ (a : ArtifactProvenance). some a.id);
}

abbrev pub is_some {ℓ} : {A : Type ℓ} → Option A → Bool
is_some none = false
is_some (some x) = true

abbrev pub attested_current : VersionRecord → Bool
attested_current v = v.current && is_some v.attested_by

-- "{} wasm {}... has no sealed provenance", with which version it is.
unfoldable pub unattested_warning : VersionRecord → Message
unattested_warning v =
    if v.current
    then msg "current wasm {}... has no sealed provenance" (txt v.wasm ∷ [])
    else elim v.live_from [
      | none ↦ msg "initial wasm {}... has no sealed provenance" (txt v.wasm ∷ [])
      | some t ↦ msg "version at {} wasm {}... has no sealed provenance" (txt t ∷ txt v.wasm ∷ [])
    ]

unfoldable pub unattested : List VersionRecord → List Message
unfolding unattested_warning
unattested [] = []
unattested (v ∷ l) =
    let rest = unattested l in if is_some v.attested_by then rest else unattested_warning v ∷ rest

abbrev pub gap_warning : Message
gap_warning =
    msg
      "current on-chain wasm is not the newest upgrade in the scanned window — some upgrades predate the RPC retention window and are not shown"
      []

unfoldable pub build_audit :
    Text → List UpgradeEvent → Text → Option Provenance → Text → ℕ × ℕ → AuditReport
build_audit contract_hex events current_wasm provenance rpc_url scan_window =
    let gaps = chain_gaps events in
    let gap = has_gap current_wasm events in
    let versions = map (attest provenance) (collapse_noops (all_versions current_wasm events)) in
    record {
      contract_id = contract_hex;
      rpc_url = rpc_url;
      scan_window = scan_window;
      events = events;
      versions = versions;
      chain_consistent = is_nil gaps && not gap;
      current_attested = any attested_current versions;
      provenance_supplied = is_some provenance;
      warnings = gaps ++ ((if gap then gap_warning ∷ [] else []) ++ unattested versions);
    }
