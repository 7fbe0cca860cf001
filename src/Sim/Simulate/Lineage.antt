-- ===== src/Sim/Simulate/Lineage.antt =====
-- The simulated chain of src/sim.rs as a lineage, and the artifact that the simulation of src/main.rs checks.
use sorseal.Base.{
  ℕ, ◌+◌, ◌*◌, ◌≡◌, ◌≤◌, ◌<◌, ◌↔◌, refl, true, false, List, [], ◌∷◌, some, leb, length, filter,
  find, ◌==◌, ==_refl, text_eq, Text, to_ascii_lowercase, arith, Bool-cases, inl, inr,
}
use sorseal.Provenance.{ArtifactProvenance}
use sorseal.Audit.Lineage.{is_nil}
use sorseal.Audit.Lineage.Verdict.{IsLineage}
use sorseal.Audit.Scan.History.{in_window}
use sorseal.Sim.Ledger.{last_or_empty, ledger_of}
use sorseal.Sim.Ledger.Chain.{ledger_of_small}
use sorseal.Sim.Ledger.Upgrades.{chain_events}
use sorseal.Sim.Simulate.{last_id}

-- The last hash of a chain with upgrades, in lower case.
abbrev pub EndsIn : Text → List Text → Type 0
EndsIn c [] = Unit
EndsIn c (x ∷ []) = Unit
EndsIn c (x ∷ y ∷ l) = to_ascii_lowercase (last_or_empty (y ∷ l)) ≡ c

pub IsLineage-chain_events :
    (h c : Text) (i : ℕ) (l : List Text) → IsLineage c (chain_events h i l) ↔ EndsIn c l
unfolding last_or_empty
IsLineage-chain_events h c i [] = ground arith
IsLineage-chain_events h c i (x ∷ []) = ground arith
IsLineage-chain_events h c i (x ∷ y ∷ []) = ground arith
IsLineage-chain_events h c i (x ∷ y ∷ z ∷ l) =
    let (there_in, back) = IsLineage-chain_events h c (i + 1) (y ∷ z ∷ l) in
    ((λ (joined, more). there_in more), (λ ends. (refl, back ends)))

pub find-last_id :
    (arts : List ArtifactProvenance)
    → is_nil arts ≡ false
    → (id : Text) × (art : ArtifactProvenance) × (last_id arts ≡ some id)
      × (find (λ (a : ArtifactProvenance). a.id == id) arts ≡ some art)
unfolding last_id
find-last_id [] h = cc
find-last_id (a ∷ []) h = (a.id, a, refl, rw (==_refl (a.id)) refl)
find-last_id (a ∷ b ∷ l) h =
    let (id, art, is_last, found) = find-last_id (b ∷ l) refl in
    elim (Bool-cases (a.id == id)) [
      | inl same ↦ (id, a, is_last, rw same refl)
      | inr other ↦ (id, art, is_last, rw other found)
    ]

-- All of the chain's events are the contract's, and in the window.
pub filter-chain_events :
    (last : ℕ) (h : Text) (i : ℕ) (l : List Text)
    → i + length l < 4000000
    → 1000 + (i + length l) * 1000 ≤ last + 2000
    → filter (in_window last h) (chain_events h i l) ≡ chain_events h i l
filter-chain_events last h i [] small fits = refl
filter-chain_events last h i (x ∷ []) small fits = refl
filter-chain_events last h i (x ∷ y ∷ l) small fits =
    let here_in : leb (ledger_of i) last ≡ true =
      rw (ledger_of_small i (omega arith)) (ground arith) in
    let more = filter-chain_events last h (i + 1) (y ∷ l) (omega arith) (omega arith) in
    rw here_in (rw (==_refl h) (rw more refl))
