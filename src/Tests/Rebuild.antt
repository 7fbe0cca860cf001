-- ===== src/Tests/Rebuild.antt =====
-- A record and its verification on a machine that never changes.
use sorseal.Base.{ℕ, ◌≡◌, refl, Bool, true, false, not, ◌&&◌, List, [], ◌∷◌, Text, Result, ok}
use sorseal.Provenance.{GitState, Provenance}
use sorseal.Manifest.{Artifact}
use sorseal.Runner.Git.{git_state, contains_commit}
use sorseal.Runner.Build.{short, file_sha256, source_sha256_of, record_provenance}
use sorseal.Runner.Verify.{Check, verify}
use sorseal.Runner.Verify.Rebuild.Builds.{Repeats}
use sorseal.Runner.Verify.Rebuild.{GitKeeps, verify-record_provenance}
use sorseal.Tests.Records.{one_artifact}
use sorseal.Tests.Files.{sum_sha, still_machine}

abbrev the_artifact : Artifact
the_artifact = record {
  id = b'c' ∷ [];
  build_command = b'm' ∷ [];
  wasm_path = b'w' ∷ [];
  source_root = b's' ∷ [];
}

short_empty : short [] ≡ ok []
unfolding short sorseal.Base.byte_len
short_empty = refl

empty_wasm : file_sha256 still_machine sum_sha tt (the_artifact.wasm_path) ≡ ok []
unfolding file_sha256 sorseal.Digest.Hex.hex
empty_wasm = refl

empty_source : source_sha256_of still_machine sum_sha tt (the_artifact.source_root) ≡ ok []
unfolding source_sha256_of sorseal.Digest.Tree.tree_sha256 sorseal.Digest.Hex.hex
empty_source = refl

abbrev Always : Unit {0} → Type 0
Always s = Unit

it-Repeats : Repeats still_machine sum_sha Always the_artifact
it-Repeats = record {
  wasm = [];
  size = 0;
  source = [];
  wasm_shortens = ([], short_empty);
  source_shortens = ([], short_empty);
  succeeds = λ s r. refl;
  stays = λ s r. tt;
  leaves_wasm = λ s r. refl;
  wasm_is = λ s r. empty_wasm;
  size_is = λ s r. refl;
  source_is_dir = λ s r. refl;
  source_is = λ s r. empty_source;
}

abbrev clean_state : GitState
clean_state = record { present = true; commit = []; clean = true }

it_is_clean : git_state still_machine tt ≡ ok clean_state
unfolding git_state sorseal.Runner.Git.git_output sorseal.Base.trim
it_is_clean = refl

it_is_reachable : contains_commit still_machine tt [] ≡ ok true
unfolding contains_commit
it_is_reachable = refl

it-GitKeeps : GitKeeps still_machine sum_sha Always clean_state tt
it-GitKeeps = record {
  now = clean_state;
  now_is = it_is_clean;
  present = refl;
  reachable = it_is_reachable;
  sealed_shortens = ([], short_empty);
  now_shortens = ([], short_empty);
}

verify-record_provenance_example :
    (p : Provenance) × (end : still_machine.State) × (checks : List Check)
    × (end' : still_machine.State) × (record_provenance still_machine sum_sha one_artifact false tt
        ≡ ok (p, end))
    × (verify still_machine sum_sha one_artifact p end ≡ ok ((checks, true), end'))
verify-record_provenance_example =
    verify-record_provenance still_machine sum_sha Always one_artifact false tt clean_state tt
      (it-Repeats, tt) (tt, tt) it_is_clean refl (λ t r there. it-GitKeeps)
