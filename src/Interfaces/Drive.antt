-- ===== src/Interfaces/Drive.antt =====
-- A file system that the commands read and change, one call after another.
use sorseal.Base.{ℕ, ◌≡◌, Bool, true, [], Text, Bytes, Result, ok, ◌>>=◌, ok_or}
use sorseal.Base.Utf8.{from_utf8}

pub record Drive : Type 1 where
  pub State : Type 0
  pub exists : State → Text → Bool
  pub read : State → Text → Result Bytes
  -- The calls that change something: what they answer, and the state that they leave in any case.
  pub write : State → Text → Bytes → Result (Unit {0}) × State
  pub create_dir_all : State → Text → Result (Unit {0}) × State
  pub set_permissions : State → Text → ℕ → Result (Unit {0}) × State

-- `fs::read_to_string`.
unfoldable pub read_to_string : (D : Drive) → D.State → Text → Result Text
read_to_string D s path = do
  bytes ← D.read s path
  ok_or (from_utf8 bytes) "stream did not contain valid UTF-8" []

-- What is written is there, and other calls leave what can be read.
pub record DriveLaws (D : Drive) : Type 0 where
  pub read-write :
      (s t : D.State) (path : Text) (bytes : Bytes)
      → D.write s path bytes ≡ (ok tt, t)
      → D.read t path ≡ ok bytes
  pub read-create_dir_all :
      (s : D.State) (dir path : Text) {bytes : Bytes}
      → D.read s path ≡ ok bytes
      → D.read (D.create_dir_all s dir).1 path ≡ ok bytes
  -- The owner may read a file with the mode 0600.
  pub read-set_permissions :
      (s : D.State) (secret path : Text) {bytes : Bytes}
      → D.read s path ≡ ok bytes
      → D.read (D.set_permissions s secret 0o600).1 path ≡ ok bytes
  pub exists-read :
      (s : D.State) (path : Text) {bytes : Bytes}
      → D.read s path ≡ ok bytes
      → D.exists s path ≡ true

-- Two paths of different files: what is written to the first does not change what the second reads.
abbrev pub Apart : (D : Drive) → Text → Text → Type 0
Apart D p q =
    (s t : D.State) (bytes : Bytes) → D.write s p bytes ≡ (ok tt, t) → D.read t q ≡ D.read s q
