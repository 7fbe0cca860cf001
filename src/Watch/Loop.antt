-- ===== src/Watch/Loop.antt =====
-- `run_loop` of src/watch.rs, and `watch --once` of src/main.rs.
pub mod Alerted
use sorseal.Base.{
  ℕ, Bool, true, false, not, List, [], ◌∷◌, Option, none, some, if◌then◌else◌, filter, all, Text,
  Result, ok, err, panic, ◌>>=◌, and_then, unwrap_or,
}
use sorseal.Interfaces.Json.{Json}
use sorseal.Interfaces.Files.{Files, Sha256}
use sorseal.Watch.Check.{WatchSettings, Baselines, FileCheck, passed, check_once}
use sorseal.Watch.Alerts.{Request, render_checks, send_alerts}

-- What the system does in one round: the files as they are, and what saving the state answers.
pub record Round : Type 0 where
  pub files : Files
  pub saved : Result (Unit {0})

-- What one round gives: the checks, the text that is printed, and the requests that are sent.
pub record Report (J : Json) : Type 0 where
  pub checks : List FileCheck
  pub printed : Text
  pub requests : List (Request J)

unfoldable pub failures : List FileCheck → List FileCheck
failures checks = filter (λ c. not (passed c)) checks

module _ (J : Json) (sha : Sha256) (config : WatchSettings) where
  -- What a check without an error leads to: it is printed, and alerts are sent for what fails.
  unfoldable pub report_checks : Result (List FileCheck) → Result (Report J)
  report_checks checked = do
    checks ← checked
    printed ← render_checks checks
    ok (record {
      checks = checks;
      printed = printed;
      requests = send_alerts J config (failures checks);
    })

  -- One turn of the loop before it saves. The state is changed in place, so it comes back with an error too.
  unfoldable pub turn : Files → Baselines → Result (Report J) × Baselines
  turn files state =
      let (checked, state') = check_once files sha config state in (report_checks checked, state')

  -- A report, and what follows where the state was saved.
  unfoldable pub after_report :
      Report J
      → Result (Unit {0})
      → List (Report J) × Result (Unit {0})
      → List (Report J) × Result (Unit {0})
  after_report report (ok done) (reports, ended) = (report ∷ reports, ended)
  after_report report (err e) rest = (report ∷ [], err e)
  after_report report panic rest = (report ∷ [], panic)

  -- What a turn gives, with the rest of the loop behind it.
  unfoldable pub after_turn :
      Result (Report J)
      → Result (Unit {0})
      → List (Report J) × Result (Unit {0})
      → List (Report J) × Result (Unit {0})
  after_turn (ok report) saved rest = after_report report saved rest
  after_turn (err e) saved rest = ([], err e)
  after_turn panic saved rest = ([], panic)

  -- The loop over the rounds that are given: the reports up to the first error, and the error.
  unfoldable pub run_loop : List Round → Baselines → List (Report J) × Result (Unit {0})
  run_loop [] state = ([], ok tt)
  run_loop (round ∷ later) state =
      let (reported, state') = turn round.files state in
      after_turn reported round.saved (run_loop later state')

  -- The exit code of `watch --once`.
  unfoldable pub once_code : List FileCheck → ℕ
  once_code checks = if all passed checks then 0 else 1

  unfoldable pub watch_once : Round → Baselines → Result ℕ × Baselines
  watch_once round state =
      let (reported, state') = turn round.files state in
      ((do report ← reported; done ← round.saved; ok (once_code report.checks)), state')
