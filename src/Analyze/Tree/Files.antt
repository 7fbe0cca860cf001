-- ===== src/Analyze/Tree/Files.antt =====
-- A tree of sources as the list of its Rust files, next to the walk of src/analyze.rs.
use sorseal.Base.{
  ◌≡◌, refl, ap, sym, ◌∙◌, ◌++◌, ◌||◌, not, Bool, true, List, [], ◌∷◌, if◌then◌else◌, Text, Result,
  ok, err, panic, ◌>>=◌, with_context, txt, Bool-cases, inl, inr,
}
use mathlib.Core.List.{append_assoc, append-nil}
use sorseal.Manifest.{is_empty}
use sorseal.Digest.Tree.{below}
use sorseal.Analyze.Findings.{Finding, Analysis}
use sorseal.Analyze.Blocks.{Alphanumeric}
use sorseal.Analyze.File.{analyze_file}
use sorseal.Analyze.Tree.{
  Source, file, dir, unreadable, Listing, nil, failed, entry, Walked, nothing_walked,
  is_rust_source, is_ignored, join, walk_file, sort_findings, analyze_tree_with,
}
use sorseal.Analyze.Tree.Gather.{plus, gather_node, gather, walk-gather, after-nothing}

-- A file's path below the root, and its text.
abbrev pub RustFile : Type 0
RustFile = Text × Text

module _ (root : Text) (ignore : List Text) where
  -- The Rust files that are not ignored, or the first failure to read something on the way.
  unfoldable mutual
    pub node_files : Text → Text → Source → Result (List RustFile)
    node_files rel name (file content) =
        if is_rust_source name
        then (do
          contents ← with_context content "failed to read {}" (txt (join root rel) ∷ [])
          ok ((rel, contents) ∷ []))
        else ok []
    node_files rel name (dir entries) = rust_files rel entries
    node_files rel name (unreadable e) =
        with_context (err e) "failed to read source root {}" (txt (join root rel) ∷ [])

    pub rust_files : Text → Listing → Result (List RustFile)
    rust_files rel nil = ok []
    rust_files rel (failed e) = err e
    rust_files rel (entry name node rest) = do
      here ← if is_ignored ignore name then ok [] else node_files (below rel name) name node
      later ← rust_files rel rest
      ok (here ++ later)

module _ (ia : Alphanumeric) (no_ignore : Bool) where
  -- The findings of the files, each of them on its own.
  unfoldable pub files_findings : List RustFile → List Finding
  files_findings [] = []
  files_findings ((rel, contents) ∷ fs) =
      analyze_file ia rel contents no_ignore [] ++ files_findings fs

  abbrev of_files : List RustFile → Walked
  of_files fs = record { findings = files_findings fs; walked_any = not (is_empty fs) }

  files_findings-append :
      (fs gs : List RustFile) → files_findings (fs ++ gs) ≡ files_findings fs ++ files_findings gs
  unfolding files_findings
  files_findings-append [] gs = refl
  files_findings-append ((rel, contents) ∷ fs) gs =
      ap (◌++◌ (analyze_file ia rel contents no_ignore [])) (files_findings-append fs gs)
      ∙ sym (
          append_assoc (analyze_file ia rel contents no_ignore []) (files_findings fs)
            (files_findings gs))

  is_empty-append :
      (fs gs : List RustFile) → not (is_empty (fs ++ gs)) ≡ (not (is_empty fs) || not (is_empty gs))
  is_empty-append [] gs = refl
  is_empty-append (f ∷ fs) gs = refl

  of_files-append : (fs gs : List RustFile) → plus (of_files fs) (of_files gs) ≡ of_files (fs ++ gs)
  of_files-append fs gs = rw (files_findings-append fs gs) (rw (is_empty-append fs gs) refl)

  -- What a list of files is walked to.
  abbrev walked_as : Result (List RustFile) → Result Walked
  walked_as r = r >>= λ fs. ok (of_files fs)

  walked_as-both :
      (r s : Result (List RustFile))
      → (walked_as r >>= λ a. walked_as s >>= λ b. ok (plus a b))
        ≡ walked_as (r >>= λ fs. s >>= λ gs. ok (fs ++ gs))
  walked_as-both (ok fs) (ok gs) = ap ok (of_files-append fs gs)
  walked_as-both (ok fs) (err e) = refl
  walked_as-both (ok fs) panic = refl
  walked_as-both (err e) s = refl
  walked_as-both panic s = refl

  no_file : ◌≡◌ {A = Result Walked} (ok nothing_walked) (walked_as (ok []))
  unfolding files_findings
  no_file = refl

  ignored_entry :
      (r : Result (List RustFile))
      → (walked_as r >>= λ b. ok (plus nothing_walked b)) ≡ walked_as (r >>= λ gs. ok gs)
  ignored_entry (ok fs) = refl
  ignored_entry (err e) = refl
  ignored_entry panic = refl

  read_as :
      (rel : Text) (r : Result Text)
      → (r >>= λ c.
          ok (record { findings = analyze_file ia rel c no_ignore []; walked_any = true }))
        ≡ walked_as (r >>= λ c. ok ((rel, c) ∷ []))
  unfolding files_findings
  read_as rel (ok c) = rw (append-nil (analyze_file ia rel c no_ignore [])) refl
  read_as rel (err e) = refl
  read_as rel panic = refl

  module _ (root : Text) (ignore : List Text) where
    walk_file-files :
        (rel name : Text) (content : Result Text)
        → walk_file ia no_ignore root ignore rel name content nothing_walked
          ≡ walked_as (node_files root ignore rel name (file content))
    unfolding walk_file node_files
    walk_file-files rel name content = elim (Bool-cases (is_rust_source name)) [
      | inl e ↦
          rw e (read_as rel (with_context content "failed to read {}" (txt (join root rel) ∷ [])))
      | inr e ↦ rw e (no_file)
    ]

    mutual
      unfolding gather rust_files

      gather_node-files :
          (rel name : Text) (node : Source)
          → gather_node ia no_ignore root ignore rel name node
            ≡ walked_as (node_files root ignore rel name node)
      gather_node-files rel name (file content) = walk_file-files rel name content
      gather_node-files rel name (dir entries) = gather-files rel entries
      gather_node-files rel name (unreadable e) = refl

      gather-files :
          (rel : Text) (l : Listing)
          → gather ia no_ignore root ignore rel l ≡ walked_as (rust_files root ignore rel l)
      gather-files rel nil = no_file
      gather-files rel (failed e) = refl
      gather-files rel (entry name node rest) = elim (Bool-cases (is_ignored ignore name)) [
        | inl e ↦
            rw e (rw (gather-files rel rest) (ignored_entry (rust_files root ignore rel rest)))
        | inr e ↦ rw e (
            rw (gather_node-files (below rel name) name node) (
              rw (gather-files rel rest) (
                walked_as-both (node_files root ignore (below rel name) name node)
                  (rust_files root ignore rel rest))))
      ]

>>=-ok :
    {A : Type 0} {B : Type 0} {C : Type 0} (r : Result A) (f : A → B) (g : B → Result C)
    → ((r >>= λ a. ok (f a)) >>= g) ≡ (r >>= λ a. g (f a))
>>=-ok (ok a) f g = refl
>>=-ok (err e) f g = refl
>>=-ok panic f g = refl

-- The analysis of a tree is that of its Rust files, one by one: where they and the directories on the way can be read
-- it has a result, else the first failure; it is valid where there is such a file, and its findings are those of the
-- files, each of them analyzed on its own, sorted.
pub analyze_tree_with-rust_files :
    (ia : Alphanumeric) (no_ignore : Bool) (root : Text) (ignore : List Text) (l : Listing)
    → analyze_tree_with ia root (ok l) ignore no_ignore ≡ (
        rust_files root ignore [] l >>= λ fs. ok (record {
          ok = not (is_empty fs);
          findings = sort_findings (files_findings ia no_ignore fs);
        }))
unfolding analyze_tree_with
analyze_tree_with-rust_files ia no_ignore root ignore l =
    let Report : Walked → Result Analysis =
      λ w. ok (record { ok = w.walked_any; findings = sort_findings w.findings }) in
    ap (λ r. r >>= Report)
      (walk-gather ia no_ignore root ignore [] l nothing_walked
        ∙ after-nothing ia no_ignore root ignore (gather ia no_ignore root ignore [] l)
        ∙ gather-files ia no_ignore root ignore [] l)
    ∙ >>=-ok (rust_files root ignore [] l) (of_files ia no_ignore) Report
