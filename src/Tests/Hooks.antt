-- ===== src/Tests/Hooks.antt =====
-- Hooks of sorseal and of others.
use sorseal.Base.{
  ap, length, length-append, ◌++◌, arith, trim, [], ◌≡◌, refl, true, false, none, some, text, ok,
}
use sorseal.Interfaces.Machine.{Output}
use sorseal.Hook.{HookFile, is_installed, hook_path, install, uninstall}
use sorseal.Hook.Untouched.{
  IsForeign, all_succeed, has_result, may_run, install-untouched, install-uninstall,
}

abbrev foreign : HookFile
foreign = record { content = ok (text "#!/bin/sh"); executable = true }

-- It is too short for either mark.
not_ours : IsForeign foreign.content
unfolding text
not_ours = (
  (λ (pre, post, is).
      let same = ap length is in
      absurd (
        omega (
          arith,
          same,
          length-append pre (text "sorseal hook" ++ post),
          length-append (text "sorseal hook") post,
        ))),
  (λ (pre, post, is).
      let same = ap length is in
      absurd (
        omega (
          arith,
          same,
          length-append pre (text "# sorseal pre-commit hook" ++ post),
          length-append (text "# sorseal pre-commit hook") post,
        ))),
)

abbrev answer : Output
answer = record { success = true; stdout = text "/w\n"; stderr = [] }

install-untouched_example :
    ((install all_succeed (ok answer) (some foreign)).1 ≡ some foreign)
    × (has_result (install all_succeed (ok answer) (some foreign)).0 ≡ false)
    × ((uninstall all_succeed (ok answer) (some foreign)).1 ≡ some foreign)
install-untouched_example = install-untouched all_succeed (ok answer) foreign not_ours

install-uninstall_example :
    let (r, installed) = install all_succeed (ok answer) none in
    (r ≡ ok (hook_path (trim answer.stdout)))
    × (is_installed installed ≡ true)
    × (may_run installed ≡ true)
    × (has_result (install all_succeed (ok answer) installed).0 ≡ false)
    × ((install all_succeed (ok answer) installed).1 ≡ installed)
    × (uninstall all_succeed (ok answer) installed ≡ (ok tt, none))
install-uninstall_example = install-uninstall answer refl
