-- ===== src/Tests/Files.antt =====
-- Watched files, the digest of a tree, and the verification of a build.
use sorseal.Base.{
  ◌++◌, inl, inr, ℕ, ◌≡◌, refl, Bool, true, false, List, [], ◌∷◌, Option, some, none, All, map,
  replicate, text, Text, Bytes, Result, ok, err, panic,
}
use sorseal.Base.Dict.{get}
use sorseal.Interfaces.Files.{Files, Sha256}
use sorseal.Interfaces.Machine.{Machine}
use sorseal.Digest.Hex.{hex}
use sorseal.Digest.Tree.{file, dir, Entries, nil, entry, tree_sha256}
use sorseal.Digest.Tree.Outputs.{
  Extends, no_more, both, added, inside, same_node, tree_sha256-Extends,
}
use sorseal.Watch.Check.{
  WatchPath, WatchSettings, FileBaseline, Baselines, FileCheck, FileStatus, new, unchanged,
  check_once,
}
use sorseal.Watch.Baselines.{check_once-Keeps}
use sorseal.Watch.Again.{settle, check_once-again}
use sorseal.Provenance.{Provenance, format_name}
use sorseal.Runner.Verify.{Check, pass, the_check, verify}
use sorseal.Runner.Verify.Sound.{AllVouched, verify-Vouched}
use sorseal.Tests.Records.{one_artifact}

abbrev pub sum_sha : Sha256
sum_sha bs = bs

abbrev one_file : Files
one_file = record { exists = λ p. true; is_dir = λ p. false; read = λ p. ok (1 ∷ 2 ∷ []) }

abbrev the_path : Text
the_path = b'a' ∷ []

abbrev settings : WatchSettings
settings = record {
  interval_secs = 1;
  paths = record { path = the_path; label = [] } ∷ [];
  webhooks = [];
}

abbrev old_baseline : FileBaseline
old_baseline = record { label = []; sha256 = b'0' ∷ []; size = 1 }

abbrev old_state : Baselines
old_state = (the_path, old_baseline) ∷ []

known : get the_path old_state ≡ some old_baseline
unfolding get
known = refl

check_once-Keeps_example :
    get the_path (check_once one_file sum_sha settings old_state).1 ≡ some old_baseline
check_once-Keeps_example =
    check_once-Keeps one_file sum_sha settings old_state the_path old_baseline known

abbrev first_state : Baselines
first_state = (the_path, record { label = the_path; sha256 = hex (1 ∷ 2 ∷ []); size = 2 }) ∷ []

abbrev first_checks : List FileCheck
first_checks =
    record {
      path = the_path;
      label = the_path;
      status = new;
      baseline_hash = none;
      current_hash = some (hex (1 ∷ 2 ∷ []));
    }
    ∷ []

first_run : check_once one_file sum_sha settings [] ≡ (ok first_checks, first_state)
unfolding check_once sorseal.Watch.Check.hash_file get sorseal.Watch.Check.label_of
    sorseal.Base.Dict.insert
first_run = refl

check_once-again_example :
    check_once one_file sum_sha settings first_state ≡ (ok (map settle first_checks), first_state)
check_once-again_example =
    check_once-again one_file sum_sha settings [] first_state first_checks first_run

-- A directory with one file.
abbrev listing : Entries
listing = entry the_path (dir (entry the_path (file (ok (7 ∷ []))) nil)) nil

-- With a repository beside it and a report in it.
abbrev more_listed : Entries
more_listed =
    entry the_path
      (dir (
        entry the_path (file (ok (7 ∷ []))) (entry (the_path ++ text ".sarif") (file (ok [])) nil)))
      (entry (text ".git") (dir nil) nil)

more-Extends : Extends listing more_listed
more-Extends =
    both (inside (both same_node (added (inr (the_path, refl)) no_more)))
      (added (inl (inl refl)) no_more)

tree_sha256-Extends_example : tree_sha256 sum_sha more_listed ≡ tree_sha256 sum_sha listing
tree_sha256-Extends_example = tree_sha256-Extends sum_sha more-Extends

-- A machine with one state, on which every file is empty.
abbrev pub still_machine : Machine
still_machine = record {
  State = Unit;
  shell = λ s command. (ok true, s);
  git = λ s args. ok (record { success = true; stdout = []; stderr = [] });
  rustc_version = λ s. err [];
  exists = λ s path. true;
  is_dir = λ s path. true;
  read = λ s path. ok [];
  size = λ s path. ok 0;
  entries = λ s path. nil;
  now = λ s. 0;
}

abbrev empty_record : Provenance
empty_record = record {
  format = format_name;
  version = 1;
  project = b'p' ∷ [];
  toolchain = [];
  git = record { present = false; commit = []; clean = false };
  artifacts =
      record {
        id = b'c' ∷ [];
        command = b'm' ∷ [];
        wasm_path = b'w' ∷ [];
        wasm_sha256 = [];
        wasm_size = 0;
        source_root = b's' ∷ [];
        source_sha256 = [];
        built_at = [];
      }
      ∷ [];
  analysis = [];
}

abbrev the_checks : List Check
the_checks =
    the_check (text "project") "name" pass "manifest project '{}' matches sealed provenance"
      ((b'p' ∷ []) ∷ [])
    ∷ the_check (b'c' ∷ []) "wasm" pass "sha256 matches sealed digest {}" ([] ∷ [])
    ∷ the_check (b'c' ∷ []) "source" pass "source tree matches sealed digest {}" ([] ∷ [])
    ∷ []

all_checks_pass :
    verify still_machine sum_sha one_artifact empty_record tt ≡ ok ((the_checks, true), tt)
unfolding verify sorseal.Runner.Verify.git_checks sorseal.Runner.Verify.verify_artifacts
    sorseal.Runner.Verify.verify_artifact sorseal.Runner.Verify.after_build
    sorseal.Runner.Build.run_build sorseal.Runner.Verify.compare_build
    sorseal.Runner.Build.file_sha256 sorseal.Runner.Verify.digest_check hex
    sorseal.Runner.Build.short sorseal.Base.byte_len sorseal.Runner.Build.source_sha256_of
    tree_sha256 sorseal.Runner.Verify.name_check sorseal.Runner.Verify.gap_checks
    sorseal.Runner.Verify.is_pass sorseal.Runner.Verify.command_checks
all_checks_pass = refl

verify-Vouched_example : AllVouched still_machine sum_sha one_artifact empty_record tt
verify-Vouched_example =
    verify-Vouched still_machine sum_sha one_artifact empty_record tt tt the_checks all_checks_pass
