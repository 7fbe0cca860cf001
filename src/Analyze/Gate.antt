-- ===== src/Analyze/Gate.antt =====
-- The gate of `--fail-on` and the counts by severity agree with the worst severity and the number of findings.
use sorseal.Base.{
  ℕ, ◌+◌, ◌≡◌, refl, Bool, false, List, [], ◌∷◌, Option, none, some, arith, if◌then◌else◌, leb,
  nat_beq, any, filter, length, Bool-cases, Option-cases, inl, inr,
}
use sorseal.Analyze.Findings.{
  Severity, low, medium, high, critical, rank, Finding, Analysis, worst_of, worst_severity,
  count_by_severity, has_findings_at_or_above,
}

-- Whether a worst severity reaches the threshold.
abbrev pub reaches : Severity → Option Severity → Bool
reaches threshold none = false
reaches threshold (some s) = leb (rank threshold) (rank s)

any-worst_of :
    (threshold : Severity) (fs : List Finding)
    → any (λ (f : Finding). leb (rank threshold) (rank f.severity)) fs
      ≡ reaches threshold (worst_of fs)
unfolding worst_of
any-worst_of threshold [] = refl
any-worst_of threshold (f ∷ fs) = elim (Option-cases (worst_of fs)) [
  | inl e ↦ rw (any-worst_of threshold fs) (rw (e, worst_of) (ground arith))
  | inr (s, e) ↦ rw (any-worst_of threshold fs) (rw (e, worst_of) (ground arith))
]

count : Severity → List Finding → ℕ
count s fs = length (filter (λ (f : Finding). nat_beq (rank f.severity) (rank s)) fs)

-- What one finding adds to a count.
abbrev one : Severity → Severity → ℕ
one s t = if nat_beq (rank t) (rank s) then 1 else 0

one_of_four : (t : Severity) → one low t + one medium t + one high t + one critical t ≡ 1
one_of_four low = refl
one_of_four medium = refl
one_of_four high = refl
one_of_four critical = refl

count-cons :
    (s : Severity) (f : Finding) (fs : List Finding)
    → count s (f ∷ fs) ≡ one s f.severity + count s fs
unfolding count
count-cons s f fs = elim (Bool-cases (nat_beq (rank f.severity) (rank s))) [
  | inl e ↦ rw e (omega arith)
  | inr e ↦ rw e (omega arith)
]

count-total :
    (fs : List Finding)
    → count low fs + count medium fs + count high fs + count critical fs ≡ length fs
count-total [] = unfold count in refl
count-total (f ∷ fs) = omega (
  arith,
  count-cons low f fs,
  count-cons medium f fs,
  count-cons high f fs,
  count-cons critical f fs,
  one_of_four f.severity,
  count-total fs,
)

-- The gate fails exactly when there is a worst severity and it reaches the threshold, and the counts by severity
-- add up to the number of findings.
has_findings_at_or_above-worst_severity :
    (a : Analysis) (threshold : Severity)
    → (has_findings_at_or_above a threshold ≡ reaches threshold (worst_severity a))
      × (count_by_severity a low
            + count_by_severity a medium
            + count_by_severity a high
            + count_by_severity a critical
          ≡ length a.findings)
unfolding has_findings_at_or_above worst_severity count_by_severity
has_findings_at_or_above-worst_severity a threshold =
    (any-worst_of threshold a.findings, unfold count in count-total a.findings)
