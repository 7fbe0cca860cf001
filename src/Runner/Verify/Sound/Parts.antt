-- ===== src/Runner/Verify/Sound/Parts.antt =====
-- What it means that a single check of `verify` passes.
use sorseal.Base.{
  ◌≡◌, refl, ap, Bool, true, false, not, List, [], ◌∷◌, ◌++◌, ◌==◌, ==_iff, text_eq, contains, all,
  All, Text, if◌then◌else◌, Result, ok, err, panic, ◌>>=◌, with_context, bail_if, Ensures,
  Ensures-after, Bool-cases, inl, inr, arith, txt,
}
use sorseal.Manifest.{Artifact, Manifest}
use sorseal.Provenance.{ArtifactProvenance, Provenance}
use sorseal.Runner.Build.{short}
use sorseal.Runner.Verify.{
  Check, is_pass, name_check, gap_checks, command_checks, digest_check, or_false,
}

abbrev pub all_pass : List Check → Bool
all_pass checks = all (λ c. is_pass c.outcome) checks

pub all_pass-append :
    (xs ys : List Check) → all_pass (xs ++ ys) ≡ true → (all_pass xs ≡ true) × (all_pass ys ≡ true)
all_pass-append [] ys h = (refl, h)
all_pass-append (x ∷ xs) ys h = ground (arith, all_pass-append xs ys)

pub digest_check-passes :
    (id : Text) (check a b : _) (rebuilt sealed : Text)
    → Ensures
        (λ c. is_pass c.outcome ≡ true → rebuilt ≡ sealed)
        (digest_check id check a b rebuilt sealed)
unfolding digest_check is_pass
digest_check-passes id check a b rebuilt sealed = elim (Bool-cases (rebuilt == sealed)) [
  | inl same ↦
      rw (same, digest_check)
        (Ensures-after (λ c. is_pass c.outcome ≡ true → rebuilt ≡ sealed) (short sealed) _
          (λ s passes. (==_iff rebuilt sealed).0 same))
  | inr other ↦
      rw (other, digest_check)
        (Ensures-after (λ c. is_pass c.outcome ≡ true → rebuilt ≡ sealed) (short rebuilt) _
          (λ r.
            Ensures-after (λ c. is_pass c.outcome ≡ true → rebuilt ≡ sealed) (short sealed) _
              (λ s passes. ground arith)))
]

pub name_check-passes :
    (m : Manifest) (p : Provenance)
    → is_pass (name_check m p).outcome ≡ true
    → p.project ≡ m.project.name
unfolding name_check is_pass
name_check-passes m p h = ground (arith, ==_iff p.project m.project.name)

pub command_checks-passes :
    (ma : Artifact) (art : ArtifactProvenance)
    → all_pass (command_checks ma art) ≡ true
    → ma.build_command ≡ art.command
unfolding command_checks is_pass
command_checks-passes ma art h = ground (arith, ==_iff ma.build_command art.command)

abbrev pub Sealed : List Text → List Artifact → Type 0
Sealed ids mas = All (λ ma. contains ma.id ids ≡ true) mas

pub gap_checks-passes :
    (ids : List Text) (mas : List Artifact) → all_pass (gap_checks ids mas) ≡ true → Sealed ids mas
unfolding gap_checks is_pass
gap_checks-passes ids [] h = tt
gap_checks-passes ids (ma ∷ rest) h = ground (arith, gap_checks-passes ids rest)

pub shell-ok :
    {S : Type 0} (command : Text) (r : Result Bool × S)
    → (with_context r.0 "failed to spawn build command: {command}" (txt command ∷ []) >>= λ success.
        bail_if (not success) "build command exited with {status}: {command}" (txt command ∷ []))
      ≡ ok tt
    → r ≡ (ok true, r.1)
shell-ok command (ok true, s) ran = refl
shell-ok command (ok false, s) ran = cc
shell-ok command (err e, s) ran = cc
shell-ok command (panic, s) ran = cc

pub reachable-passes :
    (present : Bool) (r : Result Bool)
    → Ensures (λ b. b ≡ true → r ≡ ok true) (if present then or_false r else ok false)
reachable-passes true (ok b) = λ h. ap ok h
reachable-passes true (err e) = λ h. ground arith
reachable-passes true panic = tt
reachable-passes false r = λ h. ground arith
