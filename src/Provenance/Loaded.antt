-- ===== src/Provenance/Loaded.antt =====
-- What `Provenance::load` of src/provenance.rs reads.
use sorseal.Base.{
  ◌≡◌, refl, Option, [], ◌∷◌, Text, Bytes, Result, ok, err, panic, ◌>>=◌, ◌>>◌, ok_or, with_context,
  txt,
}
use sorseal.Base.Utf8.{from_utf8}
use sorseal.Interfaces.Drive.{Drive, read_to_string}
use sorseal.Provenance.{Provenance, validate}
use sorseal.Provenance.File.{load}

module _ (D : Drive) (from_str : Text → Option Provenance) where
  -- From the answer of the file system on.
  abbrev load_read : Text → Result Bytes → Result Provenance
  load_read path r = do
    contents ←
        with_context
          (r >>= λ bytes. ok_or (from_utf8 bytes) "stream did not contain valid UTF-8" [])
          "failed to read {}" (txt path ∷ [])
    p ← ok_or (from_str contents) "invalid provenance JSON in {}: {e}" (txt path ∷ [])
    validate p
    ok p

  read-ok :
      (path : Text) (r : Result Bytes) {p : Provenance}
      → load_read path r ≡ ok p
      → (bytes : Bytes) × (r ≡ ok bytes)
  read-ok path (ok bytes) h = (bytes, refl)
  read-ok path (err e) h = cc
  read-ok path panic h = cc

  pub load-eq-ok :
      (s : D.State) (path : Text) {p : Provenance}
      → load D from_str s path ≡ ok p
      → (bytes : Bytes) × (D.read s path ≡ ok bytes)
  unfolding load read_to_string
  load-eq-ok s path h = read-ok path (D.read s path) h

  -- What is loaded depends on what is read alone.
  pub load-again :
      (s t : D.State) (path : Text)
      → D.read t path ≡ D.read s path
      → load D from_str t path ≡ load D from_str s path
  unfolding load read_to_string
  load-again s t path e = rw e refl
