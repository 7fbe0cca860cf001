-- ===== src/Hook.antt =====
-- src/hook.rs: the pre-commit hook.
pub mod Untouched
use sorseal.Base.{
  trim, ℕ, ◌++◌, ◌&&◌, ◌||◌, not, Bool, true, false, List, [], ◌∷◌, Option, none, some,
  if◌then◌else◌, text, Text, Message, msg, txt, Error, Result, ok, err, panic, ◌>>=◌, with_context,
  bail,
}
use Prim.Native.String.{String}
use sorseal.Interfaces.Machine.{Output}
use sorseal.Analyze.Lines.{has}

-- The file at the hook's path: its text, unless it cannot be read as one, and whether it may be executed.
pub record HookFile : Type 0 where
  pub content : Result Text
  pub executable : Bool

-- The file system as far as the hook reaches: there is a file or none.
abbrev pub Disk : Type 0
Disk = Option HookFile

-- What each call of the file system answers on this run.
pub record Calls : Type 0 where
  pub create_dir_all : Result (Unit {0})
  pub write : Result (Unit {0})
  -- What a writing that fails leaves.
  pub left_behind : Disk
  pub set_permissions : Result (Unit {0})
  pub remove_file : Result (Unit {0})

unfoldable pub hook_body : Text
unfolding text
hook_body =
    text
      "#!/bin/sh\n# sorseal pre-commit hook — auto-installed by `sorseal hook install`.\n# Runs `sorseal verify` (provenance) and `sorseal analyze --fail-on High`\n# before commit. Set SORSEAL_SKIP_HOOK=1 to bypass temporarily.\nset -e\n\nif [ -n \"$SORSEAL_SKIP_HOOK\" ]; then\n  echo \"sorseal: SORSEAL_SKIP_HOOK set — skipping checks\"\n  exit 0\nfi\n\nif ! command -v sorseal >/dev/null 2>&1; then\n  echo \"sorseal: not installed — skipping (cargo install sorseal)\"\n  exit 0\nfi\n\nif [ -f sorseal.toml ] && [ -f sorseal.provenance.json ]; then\n  if ! sorseal verify; then\n    echo \"sorseal: provenance verification failed — re-run \\`sorseal record\\` if the build changed\"\n    exit 1\n  fi\n  if ! sorseal analyze --fail-on High; then\n    echo \"sorseal: static analysis found Critical/High issues — fix them before committing\"\n    exit 1\n  fi\nfi\n\nexit 0\n"

-- `Path::join`, for a root as git prints it.
unfoldable pub hook_path : Text → Text
hook_path root = root ++ text "/.git/hooks/pre-commit"

unfoldable pub is_sorseal : Result Text → Bool
is_sorseal (ok s) = has "sorseal hook" s || has "# sorseal pre-commit hook" s
is_sorseal (err e) = false
is_sorseal panic = false

unfoldable pub is_installed : Disk → Bool
is_installed none = false
is_installed (some f) = is_sorseal f.content

-- A result with the disk behind it.
abbrev pub Step : Type 0 → Type 0
Step A = Result A × Disk

-- Runs the next call where this one has answered without an error.
abbrev pub and_next : {A : Type 0} → Result (Unit {0}) → Disk → (Unit {0} → Step A) → Step A
and_next (ok u) disk next = next u
and_next (err e) disk next = (err e, disk)
and_next panic disk next = (panic, disk)

unfoldable pub write_hook : Calls → Text → Disk → Step Text
write_hook calls root disk =
    let hook = hook_path root in
    and_next
      (with_context calls.create_dir_all "failed to create {}"
        (txt (root ++ text "/.git/hooks") ∷ []))
      disk
      (λ made.
        and_next (with_context calls.write "failed to write {}" (txt hook ∷ [])) calls.left_behind
          (λ written.
            let plain = some (record { content = ok hook_body; executable = false }) in
            and_next
              (with_context calls.set_permissions "failed to make {} executable" (txt hook ∷ []))
              plain
              (λ set. (ok hook, some (record { content = ok hook_body; executable = true })))))

unfoldable pub install_at : Calls → Text → Disk → Step Text
install_at calls root none = write_hook calls root none
install_at calls root (some f) =
    if is_installed (some f)
    then (
      bail "a sorseal pre-commit hook is already installed at {}" (txt (hook_path root) ∷ []),
      some f,
    )
    else (
      bail "existing non-sorseal hook at {} — refusing to overwrite (back it up first)"
          (txt (hook_path root) ∷ []),
      some f,
    )

-- `git_root`, from what starting git answers.
unfoldable pub git_root : Result Output → Result Text
git_root (ok out) =
    if not out.success
    then bail "not a git repository (or git unavailable): {}" (txt (trim out.stderr) ∷ [])
    else ok (trim out.stdout)
git_root (err e) = err (msg "failed to run `git rev-parse` (is git installed?): {e}" [] ∷ e)
git_root panic = panic

-- In the repository that was found.
unfoldable pub install_in : Calls → Result Text → Disk → Step Text
install_in calls (ok root) disk = install_at calls root disk
install_in calls (err e) disk = (err e, disk)
install_in calls panic disk = (panic, disk)

unfoldable pub uninstall_in : Calls → Result Text → Disk → Step (Unit {0})
uninstall_in calls (ok root) disk =
    if not (is_installed disk)
    then (ok tt, disk)
    else and_next (with_context calls.remove_file "failed to remove {}" (txt (hook_path root) ∷ []))
        disk (λ removed. (ok tt, none))
uninstall_in calls (err e) disk = (err e, disk)
uninstall_in calls panic disk = (panic, disk)

unfoldable pub install : Calls → Result Output → Disk → Step Text
install calls git disk = install_in calls (git_root git) disk

unfoldable pub uninstall : Calls → Result Output → Disk → Step (Unit {0})
uninstall calls git disk = uninstall_in calls (git_root git) disk

unfoldable pub render_status : Result Output → Disk → Result Text
render_status git disk = do
  root ← git_root git
  ok (
      text "sorseal pre-commit hook: "
      ++ ((if is_installed disk then text "installed" else text "not installed")
          ++ (text "\n  " ++ hook_path root)))
