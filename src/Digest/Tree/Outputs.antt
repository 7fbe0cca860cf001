-- ===== src/Digest/Tree/Outputs.antt =====
-- Entries that `tree_sha256` of src/digest.rs passes over.
use sorseal.Base.{
  Bool, false, ◌≡◌, ◌⊎◌, inl, inr, refl, ◌++◌, ◌||◌, true, List, [], ◌∷◌, ==_refl, text_eq, Mem,
  text, Text, Error, arith,
}
use sorseal.Interfaces.Files.{Sha256}
use sorseal.Digest.Tree.{
  Node, dir, Entries, nil, failed, entry, skip_dirs, skip_files, ends_with, is_skipped, below,
  collect_node, collect, tree_sha256,
}

abbrev pub output_names : List Text
output_names =
    text ".git"
    ∷ text "target"
    ∷ text "sorseal.provenance.json"
    ∷ text "sorseal.attestation.json"
    ∷ text "sorseal.key"
    ∷ text "sorseal.pub"
    ∷ []

-- One of these names, or a name with the ending `.sarif`.
abbrev pub IsOutput : Text → Type 0
IsOutput name = Mem name output_names ⊎ ((stem : Text) × (name ≡ stem ++ text ".sarif"))

mutual
  -- The second tree is the first with more entries of such names, in any directory and anywhere in its listing.
  pub data Extends : Entries → Entries → Type 0 where
    no_more : Extends nil nil
    fails : {e : Error} → Extends (failed e) (failed e)
    both :
        {name : Text} {node node' : Node} {es es' : Entries}
        → ExtendsNode node node'
        → Extends es es'
        → Extends (entry name node es) (entry name node' es')
    added :
        {name : Text} {node : Node} {es es' : Entries}
        → IsOutput name
        → Extends es es'
        → Extends es (entry name node es')

  pub data ExtendsNode : Node → Node → Type 0 where
    same_node : {node : Node} → ExtendsNode node node
    inside : {es es' : Entries} → Extends es es' → ExtendsNode (dir es) (dir es')

ends_with-append : (suffix stem : Text) → ends_with suffix (stem ++ suffix) ≡ true
unfolding ends_with
ends_with-append [] [] = refl
ends_with-append (c ∷ s) [] = rw (==_refl (c ∷ s)) refl
ends_with-append suffix (c ∷ stem) = rw (ends_with-append suffix stem) (ground arith)

last_is_true : (a b : Bool) → (a || (b || true)) ≡ true
last_is_true true b = refl
last_is_true false true = refl
last_is_true false false = refl

is_skipped-IsOutput : (name : Text) → IsOutput name → is_skipped name ≡ true
unfolding is_skipped skip_dirs skip_files
is_skipped-IsOutput name (inr (stem, e)) =
    rw e (rw (ends_with-append (text ".sarif") stem) (last_is_true _ _))
is_skipped-IsOutput name (inl (inl e)) = rw e refl
is_skipped-IsOutput name (inl (inr (inl e))) = rw e refl
is_skipped-IsOutput name (inl (inr (inr (inl e)))) = rw e refl
is_skipped-IsOutput name (inl (inr (inr (inr (inl e))))) = rw e refl
is_skipped-IsOutput name (inl (inr (inr (inr (inr (inl e)))))) = rw e refl
is_skipped-IsOutput name (inl (inr (inr (inr (inr (inr (inl e))))))) = rw e refl
is_skipped-IsOutput name (inl (inr (inr (inr (inr (inr (inr none_left))))))) = absurd none_left

mutual
  unfolding collect collect_node

  collect-Extends :
      (rel : Text) {es es' : Entries} → Extends es es' → collect rel es' ≡ collect rel es
  collect-Extends rel no_more = refl
  collect-Extends rel fails = refl
  collect-Extends rel (both {name} n x) =
      rw (collect-Extends rel x) (rw (collect_node-Extends (below rel name) n) refl)
  collect-Extends rel (added {name} out x) =
      rw (is_skipped-IsOutput name out) (collect-Extends rel x)

  collect_node-Extends :
      (rel : Text) {node node' : Node}
      → ExtendsNode node node'
      → collect_node rel node' ≡ collect_node rel node
  collect_node-Extends rel same_node = refl
  collect_node-Extends rel (inside x) = collect-Extends rel x

-- Entries named `.git`, `target`, `sorseal.provenance.json`, `sorseal.attestation.json`, `sorseal.key` or `sorseal.pub`, or
-- with the ending `.sarif`, in any directory of the tree, anywhere in its listing and whatever they are, do not change
-- the digest of the tree.
pub tree_sha256-Extends :
    (sha : Sha256) {es es' : Entries} → Extends es es' → tree_sha256 sha es' ≡ tree_sha256 sha es
unfolding tree_sha256
tree_sha256-Extends sha x = rw (collect-Extends [] x) refl
