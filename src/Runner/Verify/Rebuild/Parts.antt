-- ===== src/Runner/Verify/Rebuild/Parts.antt =====
-- The parts of `verify` of src/runner.rs on input with which their checks pass.
use sorseal.Base.{
  ◌≡◌, ◌≢◌, refl, true, List, [], ◌∷◌, ◌++◌, map, some, ◌==◌, ==_iff, ==_refl, text_eq, find,
  contains, All, Text, ok, Bool-cases, inl, inr, arith, txt, msg, Message,
}
use sorseal.Manifest.{Artifact, Manifest}
use sorseal.Manifest.Valid.{DistinctIds}
use sorseal.Provenance.{GitState, Provenance}
use sorseal.Runner.Build.{short}
use sorseal.Runner.Verify.{Check, is_pass, name_check, gap_checks, git_detail}
use sorseal.Runner.Verify.Sound.Parts.{all_pass}

-- Its first bytes can be cut off.
abbrev pub Shortens : Text → Type 0
Shortens s = (t : Text) × (short s ≡ ok t)

-- Looking up the id of each artifact finds that artifact.
abbrev pub Found : List Artifact → List Artifact → Type 0
Found all_mas mas =
    All (λ (a : Artifact). find (λ (m : Artifact). m.id == a.id) all_mas ≡ some a) mas

Found-cons :
    (a : Artifact) (l mas : List Artifact)
    → All (λ (b : Artifact). a.id ≢ b.id) mas
    → Found l mas
    → Found (a ∷ l) mas
Found-cons a l [] apart found = tt
Found-cons a l (b ∷ mas) apart found =
    ground (arith, ==_iff a.id b.id, Found-cons a l mas apart.1 found.1)

pub DistinctIds-Found : (mas : List Artifact) → DistinctIds mas → Found mas mas
DistinctIds-Found [] distinct = tt
DistinctIds-Found (a ∷ mas) distinct =
    (rw (==_refl a.id) refl, Found-cons a mas mas distinct.0 (DistinctIds-Found mas distinct.1))

pub append-all_pass :
    (xs ys : List Check) → all_pass xs ≡ true → all_pass ys ≡ true → all_pass (xs ++ ys) ≡ true
append-all_pass [] ys h k = k
append-all_pass (x ∷ xs) ys h k = ground (arith, append-all_pass xs ys)

-- The ids among which each artifact's own stands.
pub gap_checks-nil :
    (ids : List Text) (mas : List Artifact)
    → ((a : Artifact) → contains a.id (map (λ m. m.id) mas) ≡ true → contains a.id ids ≡ true)
    → gap_checks ids mas ≡ []
unfolding gap_checks
gap_checks-nil ids [] h = refl
gap_checks-nil ids (a ∷ mas) h =
    rw (h a (ground (arith, ==_refl a.id)))
      (gap_checks-nil ids mas (λ b k. h b (ground (arith, k))))

pub name_check-same :
    (m : Manifest) (p : Provenance)
    → p.project ≡ m.project.name
    → is_pass (name_check m p).outcome ≡ true
unfolding name_check is_pass
name_check-same m p same = ground (arith, ==_iff p.project m.project.name)

pub git_detail-reachable :
    (gs : GitState) (commit : Text)
    → gs.present ≡ true
    → Shortens commit
    → Shortens gs.commit
    → (detail : Message) × (git_detail gs commit true ≡ ok detail)
unfolding git_detail
git_detail-reachable gs commit there (t, cut) (u, cut') = elim (Bool-cases (gs.commit == commit)) [
  | inl same ↦ (
    msg "HEAD matches sealed commit {}" (txt t ∷ []),
    rw (there, git_detail) (rw same (rw cut refl)),
  )
  | inr other ↦ (
    msg "sealed commit {} is reachable from HEAD {}" (txt t ∷ txt u ∷ []),
    rw (there, git_detail) (rw other (rw cut (rw cut' refl))),
  )
]
