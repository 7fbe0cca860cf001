-- ===== src/Runner/Git.antt =====
-- src/git.rs.
use sorseal.Base.{
  Bool, true, false, List, [], ◌∷◌, ◌==◌, text_eq, text, Text, trim, if◌then◌else◌, Result, ok, err,
  panic, ◌>>=◌, bail, msg, txt,
}
use sorseal.Interfaces.Machine.{Machine}
use sorseal.Provenance.{GitState}

module _ (M : Machine) (s : M.State) where
  unfoldable pub git_output : List Text → Result Text
  git_output args = do
    out ← M.git s args
    if out.success then ok out.stdout else bail "`git {}` failed: {}" (txt (trim out.stderr) ∷ [])

  unfoldable pub head_args : List Text
  unfolding text
  head_args = text "rev-parse" ∷ text "HEAD" ∷ []

  unfoldable pub status_args : List Text
  unfolding text
  status_args = text "status" ∷ text "--porcelain" ∷ []

  unfoldable pub git_marker : Text
  unfolding text
  git_marker = text ".git"

  -- The three arms on what `git rev-parse HEAD` gave.
  unfoldable pub state_of : Result Text → Result GitState
  state_of (ok commit) = do
    status ← git_output status_args
    ok (record { present = true; commit = trim commit; clean = trim status == [] })
  state_of (err e) =
      if M.exists s git_marker
      then err (
          msg "git repository detected ({} exists) but `git rev-parse HEAD` failed: {e:#}"
            (txt git_marker ∷ [])
          ∷ e)
      else ok (record { present = false; commit = []; clean = false })
  state_of panic = panic

  unfoldable pub git_state : Result GitState
  unfolding state_of
  git_state = state_of (git_output head_args)

  unfoldable pub contains_commit : Text → Result Bool
  unfolding text
  contains_commit commit = do
    out ← M.git s (text "merge-base" ∷ text "--is-ancestor" ∷ commit ∷ text "HEAD" ∷ [])
    ok out.success
