-- ===== src/Analyze/Tree.antt =====
-- `analyze_tree_with` of src/analyze.rs: the walk over the sources and the order of the findings.
pub mod Gather
pub mod Reordered
pub mod Stable
pub mod Files
use sorseal.Base.{
  ℕ, ◌++◌, ◌&&◌, ◌||◌, not, Bool, true, false, List, [], ◌∷◌, any, if◌then◌else◌, ltb, nat_beq,
  length, leb, text, Text, Error, Result, ok, err, ◌>>=◌, with_context, txt,
}
use sorseal.Base.Order.{LinearOrder, nat_order, text_order, lex_order}
use sorseal.Digest.Tree.{ends_with, below}
use sorseal.Analyze.Findings.{Finding, Analysis, rule_str, rank}
use sorseal.Analyze.Blocks.{Alphanumeric}
use sorseal.Analyze.File.{analyze_file}

mutual
  -- What `is_dir`, `read_dir` and `read_to_string` find: a text, or why it cannot be read, a directory with its entries,
  -- or a directory that cannot be read.
  pub data Source : Type 0 where
    file : Result Text → Source
    dir : Listing → Source
    unreadable : Error → Source

  -- What the iterator of `read_dir` gives; it may fail at any entry.
  pub data Listing : Type 0 where
    nil : Listing
    failed : Error → Listing
    entry : Text → Source → Listing → Listing

-- The variables that the walk changes.
pub record Walked : Type 0 where
  pub findings : List Finding
  pub walked_any : Bool

abbrev pub nothing_walked : Walked
nothing_walked = record { findings = []; walked_any = false }

-- The extension of a file name is `rs`: what is behind its last dot, if that is not its first character.
unfoldable pub is_rust_source : Text → Bool
is_rust_source name = ends_with (text ".rs") name && ltb 3 (length name)

unfoldable pub is_ignored : List Text → Text → Bool
is_ignored ignore name = any (λ ig. ends_with ig name) ignore

-- `Path::join`.
unfoldable pub join : Text → Text → Text
join root rel = if ends_with (text "/") root then root ++ rel else below root rel

module _ (is_alphanumeric : Alphanumeric) (no_ignore : Bool) (root : Text)
    (ignore : List Text) where
  -- A file that is not a directory.
  unfoldable pub walk_file : Text → Text → Result Text → Walked → Result Walked
  walk_file rel name content st =
      if is_rust_source name
      then (do
        contents ← with_context content "failed to read {}" (txt (join root rel) ∷ [])
        ok (record {
          findings = analyze_file is_alphanumeric rel contents no_ignore st.findings;
          walked_any = true;
        }))
      else ok st

  unfoldable mutual
    -- An entry that is not ignored.
    pub walk_node : Text → Text → Source → Walked → Result Walked
    walk_node rel name (file content) st = walk_file rel name content st
    walk_node rel name (dir entries) st = walk rel entries st
    walk_node rel name (unreadable e) st =
        with_context (err e) "failed to read source root {}" (txt (join root rel) ∷ [])

    pub walk : Text → Listing → Walked → Result Walked
    walk rel nil st = ok st
    walk rel (failed e) st = err e
    walk rel (entry name node rest) st =
        if is_ignored ignore name
        then walk rel rest st
        else (do behind ← walk_node (below rel name) name node st; walk rel rest behind)

-- What the comparison of two findings looks at: file, line, rule, severity, message.
abbrev pub Key : Type 0
Key = Text × (ℕ × (Text × (ℕ × Text)))

unfoldable pub key : Finding → Key
key f = (f.file, (f.line, (rule_str f.rule, (rank f.severity, f.message))))

-- The derived order of tuples. The order on UTF-8 bytes is that on the code points.
abbrev pub key_order : LinearOrder Key
key_order =
    lex_order text_order
      (lex_order nat_order (lex_order text_order (lex_order nat_order text_order)))

unfoldable pub insert_finding : Finding → List Finding → List Finding
insert_finding f [] = f ∷ []
insert_finding f (g ∷ fs) =
    if key_order.lt (key g) (key f) then g ∷ insert_finding f fs else f ∷ g ∷ fs

-- `sort_by`, which is stable.
unfoldable pub sort_findings : List Finding → List Finding
sort_findings [] = []
sort_findings (f ∷ fs) = insert_finding f (sort_findings fs)

unfoldable pub analyze_tree_with :
    Alphanumeric → Text → Result Listing → List Text → Bool → Result Analysis
analyze_tree_with ia source_root listing ignore no_ignore = do
  entries ← with_context listing "failed to read source root {}" (txt source_root ∷ [])
  walked ← walk ia no_ignore source_root ignore [] entries nothing_walked
  ok (record { ok = walked.walked_any; findings = sort_findings walked.findings })

-- `analyze_tree`: with the default options.
unfoldable pub analyze_tree : Alphanumeric → Text → Result Listing → List Text → Result Analysis
analyze_tree ia source_root listing ignore = analyze_tree_with ia source_root listing ignore false
