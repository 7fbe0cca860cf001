-- ===== src/Watch/Again.antt =====
-- A second run of `check_once` of src/watch.rs on the same files.
use sorseal.Base.{
  ℕ, ◌≡◌, refl, ap, List, [], ◌∷◌, Option, none, some, ◌==◌, ==_refl, text_eq, Text, ok, ◌>>=◌,
  Bool-cases, Result-cases, Ensures, Ensures-bind, subst, inl, inr, map, arith,
}
use sorseal.Base.Dict.{get, get-insert}
use sorseal.Interfaces.Files.{Files, Sha256}
use sorseal.Watch.Baselines.{Keeps, check_paths-Keeps}
use sorseal.Watch.Check.{
  WatchPath, WatchSettings, FileBaseline, Baselines, FileCheck, FileStatus, unchanged, new,
  hash_file, compare_baseline, check_path, check_paths, check_once, label_of,
}

-- A check with its status and its baseline, once the baseline is recorded.
abbrev settle_status : FileStatus → Option Text → Option Text → FileStatus × Option Text
settle_status new before now = (unchanged, now)
settle_status s before now = (s, before)

abbrev pub settle : FileCheck → FileCheck
settle c = record {
  path = c.path;
  label = c.label;
  status = (settle_status c.status c.baseline_hash c.current_hash).0;
  baseline_hash = (settle_status c.status c.baseline_hash c.current_hash).1;
  current_hash = c.current_hash;
}

module _ (fs : Files) (sha : Sha256) where
  -- What one path gives, in any state that keeps what the first run recorded.
  abbrev SettlesIn : WatchPath → FileCheck × Baselines → Type 0
  SettlesIn wp r = (s : Baselines) → Keeps r.1 s → check_path fs sha wp s ≡ ok (settle r.0, s)

  compare_baseline-again :
      (wp : WatchPath) (h : Text) (n : ℕ) (o : Option FileBaseline) (state s : Baselines)
      → get wp.path state ≡ o
      → Keeps (compare_baseline fs sha wp h n o state).1 s
      → compare_baseline fs sha wp h n (get wp.path s) s
        ≡ (settle (compare_baseline fs sha wp h n o state).0, s)
  unfolding compare_baseline
  compare_baseline-again wp h n (some b) state s found keeps =
      rw (keeps wp.path b found, compare_baseline)
        (elim (Bool-cases (b.sha256 == h)) [ inl same ↦ rw same refl | inr other ↦ rw other refl ])
  compare_baseline-again wp h n none state s absent keeps =
      let recorded : FileBaseline = record { label = label_of wp; sha256 = h; size = n } in
      let found : get wp.path s ≡ some recorded =
        keeps wp.path recorded
          (ground (arith, get-insert wp.path wp.path recorded state, ==_refl wp.path)) in
      rw (found, compare_baseline, ==_refl h) refl

  check_path-again :
      (wp : WatchPath) (state : Baselines) → Ensures (SettlesIn wp) (check_path fs sha wp state)
  unfolding check_path
  check_path-again wp state = elim (Bool-cases (fs.exists wp.path)) [
    | inl there ↦ elim (Result-cases (hash_file fs sha wp.path)) [
      | inl ((h, n), hashed) ↦
          rw (there, check_path, hashed)
            (λ s keeps.
              rw (there, check_path, hashed)
                (ap ok (compare_baseline-again wp h n (get wp.path state) state s refl keeps)))
      | inr (inl (e, failed)) ↦ rw (there, check_path, failed) tt
      | inr (inr panics) ↦ rw (there, check_path, panics) tt
    ]
    | inr gone ↦ rw (gone, check_path) (λ s keeps. rw (gone, check_path) refl)
  ]

  check_paths-cons :
      (wp : WatchPath) (rest : List WatchPath) (state s : Baselines) (c : FileCheck)
      → check_path fs sha wp state ≡ ok (c, s)
      → check_paths fs sha (wp ∷ rest) state
        ≡ (((check_paths fs sha rest s).0 >>= λ cs. ok (c ∷ cs)), (check_paths fs sha rest s).1)
  unfolding check_paths
  check_paths-cons wp rest state s c ran = rw (ran, check_paths) refl

  -- The run on a state that keeps what the first run has left.
  abbrev Again : List WatchPath → Baselines → List FileCheck → Type 0
  Again wps s checks = check_paths fs sha wps s ≡ (ok (map settle checks), s)

  check_paths-Again :
      (wps : List WatchPath) (state s : Baselines)
      → Keeps (check_paths fs sha wps state).1 s
      → Ensures (Again wps s) (check_paths fs sha wps state).0
  unfolding check_paths
  check_paths-Again [] state s keeps = refl
  check_paths-Again (wp ∷ rest) state s keeps = elim (Result-cases (check_path fs sha wp state)) [
    | inl ((c, next), ran) ↦
        let first : SettlesIn wp (c, next) =
          subst (Ensures (SettlesIn wp)) ran (check_path-again wp state) in
        let later : Keeps (check_paths fs sha rest next).1 s =
          subst (λ r. Keeps r.1 s) (check_paths-cons wp rest state next c ran) keeps in
        let kept : Keeps next s =
          λ k b found. later k b (check_paths-Keeps fs sha rest next k b found) in
        rw (ran, check_paths)
          (Ensures-bind (Again rest s) (Again (wp ∷ rest) s) (check_paths fs sha rest next).0 _
            (check_paths-Again rest next s later)
            (λ cs again. rw (check_paths-cons wp rest s s (settle c) (first s kept), again) refl))
    | inr (inl (e, failed)) ↦ rw (failed, check_paths) tt
    | inr (inr panics) ↦ rw (panics, check_paths) tt
  ]

-- After a run without an error, a second run on the same files records nothing and reports the same checks,
-- except that a path that was new is now unchanged, with the hash that the first run recorded as its baseline.
pub check_once-again :
    (fs : Files) (sha : Sha256) (config : WatchSettings) (state end : Baselines)
    (checks : List FileCheck)
    → check_once fs sha config state ≡ (ok checks, end)
    → check_once fs sha config end ≡ (ok (map settle checks), end)
unfolding check_once
check_once-again fs sha config state end checks ran =
    let again : Ensures (Again fs sha config.paths (check_paths fs sha config.paths state).1)
        (check_paths fs sha config.paths state).0 =
      check_paths-Again fs sha config.paths state _ (λ k b found. found) in
    subst (λ r. Ensures (Again fs sha config.paths r.1) r.0) ran again
