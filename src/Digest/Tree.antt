-- ===== src/Digest/Tree.antt =====
-- `digest::tree_sha256`: the digest of a directory's tree.
pub mod Outputs
use sorseal.Base.{
  ℕ, zero, suc, ◌+◌, ◌/◌, ◌%◌, ◌≡◌, refl, ◌++◌, Bool, true, false, ◌||◌, List, [], ◌∷◌,
  if◌then◌else◌, ltb, nat_beq, ◌==◌, text_eq, contains, text, Text, Bytes, Error, Result, ok, err,
  ◌>>=◌,
}
use sorseal.Interfaces.Files.{Sha256}
use sorseal.Digest.Hex.{hex}

mutual
  -- What `read_dir` and `File::open` find: a file with its bytes, a directory with its entries, or an
  -- entry of another type. Reading a file may fail, and so may reading a directory, at any of its entries.
  pub data Node : Type 0 where
    file : Result Bytes → Node
    dir : Entries → Node
    other : Node

  pub data Entries : Type 0 where
    nil : Entries
    failed : Error → Entries
    entry : Text → Node → Entries → Entries

-- A path under the root with what reading it gives.
abbrev pub FoundFile : Type 0
FoundFile = Text × Result Bytes

unfoldable pub skip_dirs : List Text
unfolding text
skip_dirs = text ".git" ∷ text "target" ∷ []

unfoldable pub skip_files : List Text
unfolding text
skip_files =
    text "sorseal.provenance.json"
    ∷ text "sorseal.attestation.json"
    ∷ text "sorseal.key"
    ∷ text "sorseal.pub"
    ∷ []

-- `str::ends_with`.
unfoldable pub ends_with : Text → Text → Bool
ends_with suffix [] = suffix == []
ends_with suffix (c ∷ s) = suffix == (c ∷ s) || ends_with suffix s

-- The two tests with which the loop of `collect` passes over an entry.
unfoldable pub is_skipped : Text → Bool
unfolding text
is_skipped name =
    contains name skip_dirs || (contains name skip_files || ends_with (text ".sarif") name)

-- `strip_prefix` gives the path below the root: the directories on the way and the name.
abbrev pub below : Text → Text → Text
below [] name = name
below parent name = parent ++ (b'/' ∷ name)

unfoldable mutual
  -- One entry that is not skipped.
  pub collect_node : Text → Node → Result (List FoundFile)
  collect_node rel (file content) = ok ((rel, content) ∷ [])
  collect_node rel (dir entries) = collect rel entries
  collect_node rel other = ok []

  pub collect : Text → Entries → Result (List FoundFile)
  collect rel nil = ok []
  collect rel (failed e) = err e
  collect rel (entry name node rest) = if is_skipped name then collect rel rest else (do
    here ← collect_node (below rel name) node
    later ← collect rel rest
    ok (here ++ later))

-- `Vec::sort` on strings. The order on UTF-8 bytes is that on the code points.
unfoldable pub text_ltb : Text → Text → Bool
text_ltb s [] = false
text_ltb [] (d ∷ t) = true
text_ltb (c ∷ s) (d ∷ t) = if nat_beq c d then text_ltb s t else ltb c d

unfoldable pub insert_file : FoundFile → List FoundFile → List FoundFile
unfolding text_ltb
insert_file f [] = f ∷ []
insert_file f (g ∷ fs) = if text_ltb g.0 f.0 then g ∷ insert_file f fs else f ∷ g ∷ fs

unfoldable pub sort : List FoundFile → List FoundFile
unfolding insert_file
sort [] = []
sort (f ∷ fs) = insert_file f (sort fs)

-- `str::as_bytes`.
unfoldable pub encode_char : ℕ → Bytes
encode_char c =
    if ltb c 0x80
    then c ∷ []
    else if ltb c 0x800
    then (0xc0 + c / 0x40) ∷ (0x80 + c % 0x40) ∷ []
    else if ltb c 0x10000
    then (0xe0 + c / 0x1000) ∷ (0x80 + c / 0x40 % 0x40) ∷ (0x80 + c % 0x40) ∷ []
    else (0xf0 + c / 0x40000)
      ∷ (0x80 + c / 0x1000 % 0x40)
      ∷ (0x80 + c / 0x40 % 0x40)
      ∷ (0x80 + c % 0x40)
      ∷ []

unfoldable pub as_bytes : Text → Bytes
unfolding encode_char
as_bytes [] = []
as_bytes (c ∷ s) = encode_char c ++ as_bytes s

-- The bytes that the hasher is fed.
unfoldable pub hashed_bytes : List FoundFile → Result Bytes
unfolding as_bytes
hashed_bytes [] = ok []
hashed_bytes ((rel, content) ∷ fs) = do
  bytes ← content
  later ← hashed_bytes fs
  ok (as_bytes rel ++ (10 ∷ (bytes ++ (10 ∷ later))))

unfoldable pub tree_sha256 : Sha256 → Entries → Result Text
unfolding hashed_bytes sort collect
tree_sha256 sha root = do
  files ← collect [] root
  bytes ← hashed_bytes (sort files)
  ok (hex (sha bytes))
