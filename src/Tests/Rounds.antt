-- ===== src/Tests/Rounds.antt =====
-- Two rounds of the watch loop on a file that differs from its baseline.
use sorseal.Base.{ℕ, ◌≡◌, refl, true, false, List, [], ◌∷◌, some, length, ok}
use sorseal.Base.Dict.{get}
use sorseal.Base.Listed.{here}
use sorseal.Watch.Check.{WatchPath, WatchSettings, FileBaseline, Baselines, post}
use sorseal.Watch.Loop.{Round, run_loop}
use sorseal.Watch.Loop.Alerted.{EachAlerts, run_loop_alerts}
use sorseal.Tests.Concrete.{json_values}
use sorseal.Tests.Files.{sum_sha}

abbrev one_round : Round
one_round = record {
  files = record { exists = λ p. true; is_dir = λ p. false; read = λ p. ok (1 ∷ 2 ∷ []) };
  saved = ok tt;
}

abbrev path_a : WatchPath
path_a = record { path = b'a' ∷ []; label = [] }

abbrev with_webhook : WatchSettings
with_webhook = record { interval_secs = 1; paths = path_a ∷ []; webhooks = post (b'u' ∷ []) ∷ [] }

abbrev baseline_a : FileBaseline
baseline_a = record { label = []; sha256 = b'0' ∷ []; size = 1 }

abbrev state_a : Baselines
state_a = (b'a' ∷ [], baseline_a) ∷ []

known_a : get path_a.path state_a ≡ some baseline_a
unfolding get
known_a = refl

two_reports :
    length (run_loop json_values sum_sha with_webhook (one_round ∷ one_round ∷ []) state_a).0 ≡ 2
unfolding run_loop sorseal.Watch.Loop.after_turn sorseal.Watch.Loop.turn
    sorseal.Watch.Loop.report_checks sorseal.Watch.Check.check_once sorseal.Watch.Check.hash_file
    sorseal.Watch.Alerts.render_checks sorseal.Watch.Alerts.check_lines sorseal.Watch.Alerts.detail
    get sorseal.Digest.Hex.hex sorseal.Watch.Alerts.short_hash sorseal.Runner.Build.prefix
    sorseal.Base.byte_len sorseal.Watch.Loop.after_report
two_reports = refl

run_loop_alerts_example :
    EachAlerts json_values sum_sha with_webhook path_a baseline_a
      (one_round ∷ one_round ∷ [])
      (run_loop json_values sum_sha with_webhook (one_round ∷ one_round ∷ []) state_a).0
run_loop_alerts_example =
    run_loop_alerts json_values sum_sha with_webhook path_a baseline_a (one_round ∷ one_round ∷ [])
      state_a (here refl) known_a
