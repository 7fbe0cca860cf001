-- ===== src/Watch/State.antt =====
-- `load_state`, `save_state` and `generate_config` of src/watch.rs. What serde_json and toml write and read is a parameter.
use sorseal.Base.{Bool, true, false, [], ◌∷◌, Option, text, Text, Result, ok, err, panic, unwrap_or}
use sorseal.Base.Utf8.{as_bytes}
use sorseal.Interfaces.Drive.{Drive, read_to_string}
use sorseal.Watch.Check.{WatchSettings, Baselines}

-- A state file that is missing, or cannot be read or parsed, stands for no baselines.
unfoldable pub state_of : (Text → Option Baselines) → Bool → Result Text → Baselines
state_of from_str true (ok t) = unwrap_or (from_str t) []
state_of from_str true (err e) = []
state_of from_str true panic = []
state_of from_str false contents = []

unfoldable pub load_state : (D : Drive) → (Text → Option Baselines) → D.State → Text → Baselines
load_state D from_str s path = state_of from_str (D.exists s path) (read_to_string D s path)

unfoldable pub save_state :
    (D : Drive) → (Baselines → Text) → Baselines → D.State → Text → Result (Unit {0}) × D.State
save_state D to_string_pretty state s path = D.write s path (as_bytes (to_string_pretty state))

unfoldable pub starter_config : WatchSettings
starter_config = record {
  interval_secs = 300;
  paths =
      record { path = text "/etc/passwd"; label = text "passwd" }
      ∷ record { path = text "/etc/shadow"; label = text "shadow" }
      ∷ [];
  webhooks = [];
}

unfoldable pub generate_config :
    (D : Drive) → (WatchSettings → Text) → D.State → Text → Result (Unit {0}) × D.State
generate_config D to_toml s path = D.write s path (as_bytes (to_toml starter_config))
