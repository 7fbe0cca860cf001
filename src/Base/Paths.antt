-- ===== src/Base/Paths.antt =====
-- `Path::parent` and `PathBuf::set_extension` on paths in the usual form: no `/` at the end, a file name last.
use Prim.Native.Nat.{ℕ}
use mathlib.Core.Option.{Option, none, some}
use mathlib.Core.List.{[], ◌∷◌, ◌++◌}
use sorseal.Base.Tests.{nat_beq, if◌then◌else◌}
use sorseal.Base.Words.{Text}

-- What stands before the last occurrence of a character.
unfoldable pub before_last : ℕ → Text → Option Text
before_last d [] = none
before_last d (c ∷ s) = elim (before_last d s) [
  | some p ↦ some (c ∷ p)
  | none ↦ if nat_beq c d then some [] else none
]

unfoldable pub after_last : ℕ → Text → Text
after_last d [] = []
after_last d (c ∷ s) = elim (before_last d s) [
  | some p ↦ after_last d s
  | none ↦ if nat_beq c d then s else c ∷ after_last d s
]

-- Empty for a path of one name.
unfoldable pub parent : Text → Text
parent path = elim (before_last b'/' path) [ none ↦ [] | some [] ↦ b'/' ∷ [] | some dir ↦ dir ]

-- A dot at the start of a name is no extension's.
unfoldable pub name_with_extension : Text → Text → Text
name_with_extension name ext = elim (before_last b'.' name) [
  | none ↦ name ++ b'.' ∷ ext
  | some [] ↦ name ++ b'.' ∷ ext
  | some stem ↦ stem ++ b'.' ∷ ext
]

unfoldable pub set_extension : Text → Text → Text
set_extension path ext =
    let name = name_with_extension (after_last b'/' path) ext in
    elim (before_last b'/' path) [ none ↦ name | some dir ↦ dir ++ b'/' ∷ name ]
