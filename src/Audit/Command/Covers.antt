-- ===== src/Audit/Command/Covers.antt =====
-- The exit code of `onchain-audit` in src/main.rs.
use sorseal.Base.{
  ℕ, ◌≡◌, ◌↔◌, refl, true, false, List, Option, none, some, if◌then◌else◌, not, ◌&&◌, Bool, inl,
  inr, ◌⊎◌, Text, arith,
}
use sorseal.Provenance.{Provenance}
use sorseal.Audit.Event.{UpgradeEvent}
use sorseal.Audit.Lineage.{build_audit}
use sorseal.Audit.Lineage.Verdict.{Covered, build_audit_verdict}
use sorseal.Audit.Command.{audit_code}

code_of : (b : Bool) → (◌≡◌ {A = ℕ} (if true && not b then 1 else 0) 0) ↔ (b ≡ true)
code_of true = ground arith
code_of false = ground arith

-- The exit code is 0 exactly where there is no record, or a sealed artifact has the deployed hash.
pub audit_code-build_audit :
    (contract_hex : Text) (events : List UpgradeEvent) (current_wasm : Text)
    (provenance : Option Provenance) (rpc_url : Text) (scan_window : ℕ × ℕ)
    → (audit_code (build_audit contract_hex events current_wasm provenance rpc_url scan_window) ≡ 0)
      ↔ ((provenance ≡ none) ⊎ Covered provenance current_wasm)
unfolding audit_code build_audit
audit_code-build_audit contract_hex events c none rpc_url w = ((λ h. inl refl), (λ h. refl))
audit_code-build_audit contract_hex events c (some p) rpc_url w =
    let verdict = build_audit_verdict contract_hex events c (some p) rpc_url w in
    let code = code_of ((build_audit contract_hex events c (some p) rpc_url w).current_attested) in
    (
      (λ h. inr (verdict.1.0 (code.0 h))),
      (λ h. elim h [ inl never ↦ cc | inr covered ↦ code.1 (verdict.1.1 covered) ]),
    )
