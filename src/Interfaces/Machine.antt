-- ===== src/Interfaces/Machine.antt =====
-- What the commands that build see of the machine: shell, git, file system and clock. Paths are relative to the base
-- directory.
use sorseal.Base.{ℕ, Bool, List, Text, Bytes, Result}
use sorseal.Digest.Tree.{Entries}

-- `std::process::Output`, with its text as `from_utf8_lossy` reads it.
pub record Output : Type 0 where
  pub success : Bool
  pub stdout : Text
  pub stderr : Text

pub record Machine : Type 1 where
  pub State : Type 0
  -- Whether the command ends well, and the state that it leaves in any case.
  pub shell : State → Text → Result Bool × State
  pub git : State → List Text → Result Output
  pub rustc_version : State → Result Output
  pub exists : State → Text → Bool
  pub is_dir : State → Text → Bool
  pub read : State → Text → Result Bytes
  pub size : State → Text → Result ℕ
  pub entries : State → Text → Entries
  pub now : State → ℕ
