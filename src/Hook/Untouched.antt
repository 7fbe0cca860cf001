-- ===== src/Hook/Untouched.antt =====
-- Hooks of others, and an installation with a removal behind it, in src/hook.rs.
use sorseal.Base.{
  text, Bool-cases, inl, inr, trim, ◌≡◌, refl, Bool, true, false, none, some, Text, Result, ok, err,
  panic,
}
use sorseal.Analyze.Lines.{has}
use sorseal.Analyze.Lines.Contains.{Contains, has-Contains}
use sorseal.Interfaces.Machine.{Output}
use sorseal.Hook.{
  install_in, uninstall_in, git_root, HookFile, Disk, Calls, hook_body, hook_path, is_sorseal,
  is_installed, write_hook, install_at, install, uninstall,
}

abbrev pub has_result : {A : Type 0} → Result A → Bool
has_result (ok a) = true
has_result (err e) = false
has_result panic = false

abbrev pub may_run : Disk → Bool
may_run none = false
may_run (some f) = f.executable

-- Every call succeeds.
abbrev pub all_succeed : Calls
all_succeed = record {
  create_dir_all = ok tt;
  write = ok tt;
  left_behind = none;
  set_permissions = ok tt;
  remove_file = ok tt;
}

hook_body-is_sorseal : is_sorseal (ok hook_body) ≡ true
unfolding is_sorseal has hook_body
hook_body-is_sorseal = refl

-- A text with neither of the two marks of sorseal's hooks, or none that can be read.
abbrev pub IsForeign : Result Text → Type 0
IsForeign (ok s) =
    ¬ Contains (text "sorseal hook") s × ¬ Contains (text "# sorseal pre-commit hook") s
IsForeign (err e) = Unit
IsForeign panic = Unit

is_sorseal-IsForeign : (r : Result Text) → IsForeign r → is_sorseal r ≡ false
unfolding is_sorseal
is_sorseal-IsForeign (ok s) h = elim (Bool-cases (has "sorseal hook" s)) [
  | inl one ↦ absurd (h.0 (has-Contains "sorseal hook" s one))
  | inr neither ↦ elim (Bool-cases (has "# sorseal pre-commit hook" s)) [
    | inl other ↦ absurd (h.1 (has-Contains "# sorseal pre-commit hook" s other))
    | inr nor ↦ rw neither nor
  ]
]
is_sorseal-IsForeign (err e) h = refl
is_sorseal-IsForeign panic h = refl

untouched_in :
    (calls : Calls) (root : Result Text) (f : HookFile)
    → is_sorseal f.content ≡ false
    → ((install_in calls root (some f)).1 ≡ some f)
      × (has_result (install_in calls root (some f)).0 ≡ false)
      × ((uninstall_in calls root (some f)).1 ≡ some f)
unfolding install_in install_at uninstall_in is_installed
untouched_in calls (ok root) f h = rw h (refl, refl, refl)
untouched_in calls (err e) f h = (refl, refl, refl)
untouched_in calls panic f h = (refl, refl, refl)

-- A hook whose text contains neither `sorseal hook` nor `# sorseal pre-commit hook`, or that cannot be read, is left as it is by an installation and by a removal, however
-- git and the calls of the file system answer; an installation then has no result.
pub install-untouched :
    (calls : Calls) (git : Result Output) (f : HookFile)
    → IsForeign f.content
    → ((install calls git (some f)).1 ≡ some f)
      × (has_result (install calls git (some f)).0 ≡ false)
      × ((uninstall calls git (some f)).1 ≡ some f)
unfolding install uninstall
install-untouched calls git f h =
    untouched_in calls (git_root git) f (is_sorseal-IsForeign f.content h)

-- Where git answers, there is no hook and the calls succeed: the installation answers with the hook's path below what git
-- printed, what it has written is recognized as installed and may be executed, a second installation is refused and
-- changes nothing, and a removal leaves no hook.
pub install-uninstall :
    (out : Output)
    → out.success ≡ true
    → let (r, installed) = install all_succeed (ok out) none in
      (r ≡ ok (hook_path (trim out.stdout)))
      × (is_installed installed ≡ true)
      × (may_run installed ≡ true)
      × (has_result (install all_succeed (ok out) installed).0 ≡ false)
      × ((install all_succeed (ok out) installed).1 ≡ installed)
      × (uninstall all_succeed (ok out) installed ≡ (ok tt, none))
unfolding install install_in install_at write_hook uninstall uninstall_in is_installed git_root
install-uninstall out h = rw h (
  refl,
  hook_body-is_sorseal,
  refl,
  rw hook_body-is_sorseal refl,
  rw hook_body-is_sorseal refl,
  rw hook_body-is_sorseal refl,
)
