-- ===== src/Watch/Loop/Alerted.antt =====
-- Alerts of the loop of src/watch.rs on a file that differs from its baseline.
use sorseal.Base.{
  ℕ, ◌≡◌, refl, ap, sym, subst, true, false, List, [], ◌∷◌, map, some, ◌==◌, text_eq, Text, Result,
  ok, err, panic, ◌>>=◌, Result-cases, Bool-cases, Ensures, Ensures-after, Ensures-bind, inl, inr,
}
use sorseal.Base.Dict.{get}
use sorseal.Base.Listed.{Listed, here, there}
use sorseal.Interfaces.Json.{Json}
use sorseal.Interfaces.Files.{Files, Sha256}
use sorseal.Watch.Check.{
  WatchPath, WatchSettings, FileBaseline, Baselines, FileCheck, drift, passes, passed, hash_file,
  compare_baseline, check_path, check_paths, check_once,
}
use sorseal.Watch.Baselines.{Keeps, check_path-Keeps, check_once-Keeps}
use sorseal.Watch.Alerts.{request, send_alerts, render_checks}
use sorseal.Watch.Loop.{
  Round, Report, failures, report_checks, turn, after_report, after_turn, run_loop,
}

-- The file is there with another hash than the baseline's.
pub record Drifts (files : Files) (sha : Sha256) (wp : WatchPath) (b : FileBaseline) : Type 0 where
  pub exists : files.exists wp.path ≡ true
  pub hash : Text
  pub size : ℕ
  pub hashed : hash_file files sha wp.path ≡ ok (hash, size)
  pub differs : (b.sha256 == hash) ≡ false

-- A check that tells so.
abbrev pub IsDrift : WatchPath → FileCheck → Type 0
IsDrift wp c = (c.path ≡ wp.path) × (c.status ≡ drift)

module _ (files : Files) (sha : Sha256) (wp : WatchPath) (b : FileBaseline)
    (d : Drifts files sha wp b) where
  check_path-IsDrift :
      (state : Baselines)
      → get wp.path state ≡ some b
      → Ensures (λ r. IsDrift wp r.0) (check_path files sha wp state)
  unfolding check_path compare_baseline
  check_path-IsDrift state found =
      rw (d.exists, check_path) (rw (d.hashed) (rw found (rw (d.differs) (refl, refl))))

  check_paths-IsDrift :
      (wps : List WatchPath) (state : Baselines)
      → Listed (λ w. w ≡ wp) wps
      → get wp.path state ≡ some b
      → Ensures (Listed (IsDrift wp)) (check_paths files sha wps state).0
  unfolding check_paths
  check_paths-IsDrift [] state listed found = elim listed [ ]
  check_paths-IsDrift (w ∷ rest) state listed found =
      elim (Result-cases (check_path files sha w state)) [
        | inl ((c, s'), ran) ↦
            rw (ran, check_paths)
              (first_or_later w rest state c s' ran listed found
                (λ l f. check_paths-IsDrift rest s' l f))
        | inr (inl (e, failed)) ↦ rw (failed, check_paths) tt
        | inr (inr panics) ↦ rw (panics, check_paths) tt
      ]
    where
      first_or_later :
          (w : WatchPath) (rest : List WatchPath) (state : Baselines) (c : FileCheck)
          (s' : Baselines)
          → check_path files sha w state ≡ ok (c, s')
          → Listed (λ w. w ≡ wp) (w ∷ rest)
          → get wp.path state ≡ some b
          → (Listed (λ w. w ≡ wp) rest
              → get wp.path s' ≡ some b
              → Ensures (Listed (IsDrift wp)) (check_paths files sha rest s').0)
          → Ensures (Listed (IsDrift wp)) ((check_paths files sha rest s').0 >>= λ cs. ok (c ∷ cs))
      first_or_later w rest state c s' ran (here same) found later =
          let drifted : IsDrift wp c = subst (Ensures (λ r. IsDrift wp r.0)) ran (
            subst (λ v. Ensures (λ r. IsDrift wp r.0) (check_path files sha v state)) (sym same)
              (check_path-IsDrift state found)) in
          Ensures-after (Listed (IsDrift wp)) (check_paths files sha rest s').0 _
            (λ cs. here drifted)
      first_or_later w rest state c s' ran (there l) found later =
          let kept : Keeps state s' =
            subst (Ensures (λ r. Keeps state r.1)) ran (check_path-Keeps files sha w state) in
          Ensures-bind (Listed (IsDrift wp)) (Listed (IsDrift wp)) (check_paths files sha rest s').0
            _ (later l (kept wp.path b found)) (λ cs h. there h)

-- A check that fails is among the failures.
failures-IsDrift :
    (wp : WatchPath) (checks : List FileCheck)
    → Listed (IsDrift wp) checks
    → Listed (IsDrift wp) (failures checks)
unfolding failures passed passes
failures-IsDrift wp [] listed = elim listed [ ]
failures-IsDrift wp (c ∷ checks) (here (path, drifted)) =
    rw (ap passes drifted) (here (path, drifted))
failures-IsDrift wp (c ∷ checks) (there l) = elim (Bool-cases (passes c.status)) [
  | inl fine ↦ rw fine (failures-IsDrift wp checks l)
  | inr bad ↦ rw bad (there (failures-IsDrift wp checks l))
]

send_alerts-all :
    (J : Json) (config : WatchSettings) (P : FileCheck → Type 0) (failed : List FileCheck)
    → Listed P failed
    → send_alerts J config failed ≡ map (request J failed) config.webhooks
unfolding send_alerts
send_alerts-all J config P [] listed = elim listed [ ]
send_alerts-all J config P (c ∷ failed) listed = refl

module _ (J : Json) (sha : Sha256) (config : WatchSettings) (wp : WatchPath)
    (b : FileBaseline) where
  -- The report of a round: a file that differs from its baseline fails, and every webhook is told.
  abbrev pub Alerts : Round → Report J → Type 0
  Alerts round report =
      Drifts round.files sha wp b
      → Listed (IsDrift wp) (failures report.checks)
        × (report.requests ≡ map (request J (failures report.checks)) config.webhooks)

  -- Each report, with its round.
  abbrev pub EachAlerts : List Round → List (Report J) → Type 0
  EachAlerts [] reports = Unit
  EachAlerts (round ∷ rounds) [] = Unit
  EachAlerts (round ∷ rounds) (report ∷ reports) = Alerts round report × EachAlerts rounds reports

module _ (J : Json) (sha : Sha256) (config : WatchSettings) (wp : WatchPath) (b : FileBaseline)
    (watched : Listed (λ w. w ≡ wp) config.paths) where
  EachAlerts-nil : (rounds : List Round) → EachAlerts J sha config wp b rounds []
  EachAlerts-nil [] = tt
  EachAlerts-nil (round ∷ rounds) = tt

  report_checks-Alerts :
      (round : Round) (checked : Result (List FileCheck))
      → (Drifts round.files sha wp b → Ensures (Listed (IsDrift wp)) checked)
      → Ensures (Alerts J sha config wp b round) (report_checks J sha config checked)
  unfolding report_checks
  report_checks-Alerts round (ok checks) h =
      Ensures-after (Alerts J sha config wp b round) (render_checks checks) _ (λ printed d. (
        failures-IsDrift wp checks (h d),
        send_alerts-all J config (IsDrift wp) (failures checks) (failures-IsDrift wp checks (h d)),
      ))
  report_checks-Alerts round (err e) h = tt
  report_checks-Alerts round panic h = tt

  turn-Alerts :
      (round : Round) (state : Baselines)
      → get wp.path state ≡ some b
      → Ensures (Alerts J sha config wp b round) (turn J sha config round.files state).0
  unfolding turn check_once
  turn-Alerts round state found =
      report_checks-Alerts round (check_once round.files sha config state).0
        (λ d. check_paths-IsDrift round.files sha wp b d config.paths state watched found)

  after_turn-EachAlerts :
      (round : Round) (later : List Round) (reported : Result (Report J))
      (saved : Result (Unit {0})) (rest : List (Report J) × Result (Unit {0}))
      → Ensures (Alerts J sha config wp b round) reported
      → EachAlerts J sha config wp b later rest.0
      → EachAlerts J sha config wp b (round ∷ later) (after_turn J sha config reported saved rest).0
  unfolding after_turn after_report
  after_turn-EachAlerts round later (ok report) (ok done) rest h more = (h, more)
  after_turn-EachAlerts round later (ok report) (err e) rest h more = (h, EachAlerts-nil later)
  after_turn-EachAlerts round later (ok report) panic rest h more = (h, EachAlerts-nil later)
  after_turn-EachAlerts round later (err e) saved rest h more = tt
  after_turn-EachAlerts round later panic saved rest h more = tt

  run_loop-EachAlerts :
      (rounds : List Round) (state : Baselines)
      → get wp.path state ≡ some b
      → EachAlerts J sha config wp b rounds (run_loop J sha config rounds state).0
  unfolding run_loop turn
  run_loop-EachAlerts [] state found = tt
  run_loop-EachAlerts (round ∷ later) state found =
      after_turn-EachAlerts round later _ round.saved _ (turn-Alerts round state found) (
        run_loop-EachAlerts later _ (check_once-Keeps round.files sha config state wp.path b found))

-- A watched path that has a baseline at the start of the loop, whatever the files are in the rounds that follow: in
-- each round that ends without an error and finds the file with another hash than this baseline's, the file is
-- among the failures, and every webhook is sent a request about them. No round takes the new hash for a baseline.
pub run_loop_alerts :
    (J : Json) (sha : Sha256) (config : WatchSettings) (wp : WatchPath) (b : FileBaseline)
    (rounds : List Round) (state : Baselines)
    → Listed (λ w. w ≡ wp) config.paths
    → get wp.path state ≡ some b
    → EachAlerts J sha config wp b rounds (run_loop J sha config rounds state).0
run_loop_alerts J sha config wp b rounds state watched found =
    run_loop-EachAlerts J sha config wp b watched rounds state found
