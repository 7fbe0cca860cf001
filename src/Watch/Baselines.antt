-- ===== src/Watch/Baselines.antt =====
-- What `check_once` of src/watch.rs does to the recorded baselines.
use sorseal.Base.{
  ℕ, ◌≡◌, refl, List, [], ◌∷◌, Option, none, some, ==_iff, text_eq, Text, Bool-cases, Result-cases,
  Ensures, Ensures-after, subst, inl, inr, arith,
}
use sorseal.Base.Dict.{get, get-insert}
use sorseal.Interfaces.Files.{Files, Sha256}
use sorseal.Watch.Check.{
  WatchPath, WatchSettings, FileBaseline, Baselines, hash_file, compare_baseline, check_path,
  check_paths, check_once, label_of,
}

-- The state that a step of the loop leaves.
abbrev pub Keeps : Baselines → Baselines → Type 0
Keeps old state = (k : Text) (b : FileBaseline) → get k old ≡ some b → get k state ≡ some b

compare_baseline-Keeps :
    (fs : Files) (sha : Sha256) (wp : WatchPath) (h : Text) (n : ℕ) (o : Option FileBaseline)
    (state : Baselines)
    → get wp.path state ≡ o
    → Keeps state (compare_baseline fs sha wp h n o state).1
unfolding compare_baseline
compare_baseline-Keeps fs sha wp h n (some b) state found k c kept = kept
compare_baseline-Keeps fs sha wp h n none state absent k c kept = ground (
  arith,
  get-insert wp.path k (record { label = label_of wp; sha256 = h; size = n }) state,
  ==_iff wp.path k,
)

module _ (fs : Files) (sha : Sha256) where
  pub check_path-Keeps :
      (wp : WatchPath) (state : Baselines)
      → Ensures (λ r. Keeps state r.1) (check_path fs sha wp state)
  unfolding check_path
  check_path-Keeps wp state = elim (Bool-cases (fs.exists wp.path)) [
    | inl there ↦
        rw (there, check_path)
          (Ensures-after (λ r. Keeps state r.1) (hash_file fs sha wp.path) _
            (λ r. compare_baseline-Keeps fs sha wp r.0 r.1 (get wp.path state) state refl))
    | inr gone ↦ rw (gone, check_path) (λ k b found. found)
  ]

  pub check_paths-Keeps :
      (wps : List WatchPath) (state : Baselines) → Keeps state (check_paths fs sha wps state).1
  unfolding check_paths
  check_paths-Keeps [] state k b found = found
  check_paths-Keeps (wp ∷ rest) state k b found = elim (Result-cases (check_path fs sha wp state)) [
    | inl ((c, state'), passed) ↦
        rw (passed, check_paths)
          (check_paths-Keeps rest state' k b
            (subst (Ensures (λ r. Keeps state r.1)) passed (check_path-Keeps wp state) k b found))
    | inr (inl (e, failed)) ↦ rw (failed, check_paths) found
    | inr (inr panics) ↦ rw (panics, check_paths) found
  ]

-- A baseline that is recorded for a path stays as it is, whatever the check finds in the files, and also where
-- the check ends with an error: only a later run that starts without it records another.
pub check_once-Keeps :
    (fs : Files) (sha : Sha256) (config : WatchSettings) (state : Baselines) (k : Text)
    (b : FileBaseline)
    → get k state ≡ some b
    → get k (check_once fs sha config state).1 ≡ some b
unfolding check_once
check_once-Keeps fs sha config state k b found =
    check_paths-Keeps fs sha config.paths state k b found
