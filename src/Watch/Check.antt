-- ===== src/Watch/Check.antt =====
-- The types of src/watch.rs, `hash_file` and `check_once`.
use sorseal.Base.{
  ℕ, Bool, true, false, not, List, [], ◌∷◌, Option, none, some, if◌then◌else◌, ◌==◌, text_eq,
  length, Text, Result, ok, err, panic, ◌>>=◌, with_context, txt,
}
use sorseal.Base.Dict.{get, insert}
use sorseal.Interfaces.Files.{Files, Sha256}
use sorseal.Digest.Hex.{hex}

pub record WatchPath : Type 0 where
  pub path : Text
  pub label : Text

pub data Webhook : Type 0 where
  discord : Text → Webhook
  telegram : Text → Text → Webhook
  post : Text → Webhook

pub record WatchSettings : Type 0 where
  pub interval_secs : ℕ
  pub paths : List WatchPath
  pub webhooks : List Webhook

pub record FileBaseline : Type 0 where
  pub label : Text
  pub sha256 : Text
  pub size : ℕ

abbrev pub Baselines : Type 0
Baselines = List (Text × FileBaseline)

pub data FileStatus : Type 0 where
  unchanged new missing drift : FileStatus

pub record FileCheck : Type 0 where
  pub path : Text
  pub label : Text
  pub status : FileStatus
  pub baseline_hash : Option Text
  pub current_hash : Option Text

-- `FileCheck::passed`.
unfoldable pub passes : FileStatus → Bool
passes unchanged = true
passes new = true
passes missing = false
passes drift = false

unfoldable pub passed : FileCheck → Bool
unfolding passes
passed c = passes c.status

unfoldable pub label_of : WatchPath → Text
label_of wp = if wp.label == [] then wp.path else wp.label

module _ (fs : Files) (sha : Sha256) where
  unfoldable pub hash_file : Text → Result (Text × ℕ)
  hash_file path = do
    bytes ← with_context (fs.read path) "failed to open {}" (txt path ∷ [])
    ok (hex (sha bytes), length bytes)

  abbrev pub missing_check : WatchPath → FileCheck
  missing_check wp = record {
    path = wp.path;
    label = label_of wp;
    status = missing;
    baseline_hash = none;
    current_hash = none;
  }

  -- The two arms of `match state.baselines.get(&key)`.
  unfoldable pub compare_baseline :
      WatchPath → Text → ℕ → Option FileBaseline → Baselines → FileCheck × Baselines
  compare_baseline wp current_hash size (some baseline) state = (
    record {
      path = wp.path;
      label = label_of wp;
      status = if baseline.sha256 == current_hash then unchanged else drift;
      baseline_hash = some baseline.sha256;
      current_hash = some current_hash;
    },
    state,
  )
  compare_baseline wp current_hash size none state = (
    record {
      path = wp.path;
      label = label_of wp;
      status = new;
      baseline_hash = none;
      current_hash = some current_hash;
    },
    insert wp.path (record { label = label_of wp; sha256 = current_hash; size = size }) state,
  )

  -- One watched path.
  unfoldable pub check_path : WatchPath → Baselines → Result (FileCheck × Baselines)
  unfolding compare_baseline
  check_path wp state = if not (fs.exists wp.path) then ok (missing_check wp, state) else (do
    (current_hash, size) ← hash_file wp.path
    ok (compare_baseline wp current_hash size (get wp.path state) state))

  -- The loop over the paths. The state is changed in place, so it comes back with an error too.
  unfoldable pub check_paths : List WatchPath → Baselines → Result (List FileCheck) × Baselines
  check_paths [] state = (ok [], state)
  check_paths (wp ∷ rest) state = elim (check_path wp state) [
    | ok (c, state') ↦
        let (later, state'') = check_paths rest state' in ((do cs ← later; ok (c ∷ cs)), state'')
    | err e ↦ (err e, state)
    | panic ↦ (panic, state)
  ]

  unfoldable pub check_once : WatchSettings → Baselines → Result (List FileCheck) × Baselines
  unfolding check_paths check_path
  check_once config state = check_paths config.paths state
