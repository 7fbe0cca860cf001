-- ===== src/Analyze/Tree/Gather.antt =====
-- The walk of src/analyze.rs without its state: what each entry adds.
use sorseal.Base.{
  map, ◌≡◌, refl, ap, sym, ◌∙◌, ◌++◌, ◌||◌, Bool, true, false, List, [], ◌∷◌, if◌then◌else◌, Text,
  Result, ok, err, panic, ◌>>=◌, with_context, txt, Bool-cases, inl, inr,
}
use mathlib.Core.List.{append_assoc, append-nil}
use sorseal.Manifest.{is_empty}
use sorseal.Analyze.Findings.{Finding}
use sorseal.Analyze.Suppress.{apply_inline_suppressions}
use sorseal.Analyze.Lines.{view}
use sorseal.Analyze.Blocks.{Alphanumeric}
use sorseal.Digest.Tree.{below}
use sorseal.Analyze.File.{analyze_file, rule_findings, lines_of}
use sorseal.Analyze.File.Within.{append-parts}
use sorseal.Analyze.Tree.{
  Source, file, dir, unreadable, Listing, nil, failed, entry, Walked, nothing_walked,
  is_rust_source, is_ignored, join, walk_file, walk_node, walk,
}

-- What has been walked first and what has been walked then.
abbrev pub plus : Walked → Walked → Walked
plus a b = record { findings = a.findings ++ b.findings; walked_any = a.walked_any || b.walked_any }

or_assoc : (a b c : Bool) → (a || b || c) ≡ (a || (b || c))
or_assoc true b c = refl
or_assoc false b c = refl

plus_assoc : (a b c : Walked) → plus (plus a b) c ≡ plus a (plus b c)
plus_assoc a b c =
    rw (append_assoc a.findings b.findings c.findings)
      (rw (or_assoc a.walked_any b.walked_any c.walked_any) refl)

-- `analyze_file` appends what it finds.
analyze_file-append :
    (ia : Alphanumeric) (rel contents : Text) (no_ignore : Bool) (fs : List Finding)
    → analyze_file ia rel contents no_ignore fs ≡ fs ++ analyze_file ia rel contents no_ignore []
unfolding analyze_file apply_inline_suppressions
analyze_file-append ia rel contents no_ignore fs =
    let raw : List Text = lines_of contents in
    let mine : List Finding = rule_findings ia rel (map view raw) in
    let (front, back) = append-parts fs mine in
    elim (Bool-cases (no_ignore || is_empty raw)) [
      | inl e ↦ rw e refl
      | inr e ↦ rw e (rw front (rw back refl))
    ]

walked_parts :
    (fs : List Finding) (walked : Bool)
    → plus (record { findings = fs; walked_any = walked }) nothing_walked
      ≡ record { findings = fs; walked_any = walked }
walked_parts fs true = rw (append-nil fs) refl
walked_parts fs false = rw (append-nil fs) refl

with_file :
    (fs new : List Finding) (walked : Bool) {all_findings : List Finding}
    → all_findings ≡ fs ++ new
    → ◌≡◌ {A = Walked}
        (record { findings = all_findings; walked_any = true })
        (plus
          (record { findings = fs; walked_any = walked })
          (record { findings = new; walked_any = true }))
with_file fs new true h = rw h refl
with_file fs new false h = rw h refl

module _ (ia : Alphanumeric) (no_ignore : Bool) (root : Text) (ignore : List Text) where
  unfoldable mutual
    -- What one entry adds.
    pub gather_node : Text → Text → Source → Result Walked
    gather_node rel name (file content) =
        walk_file ia no_ignore root ignore rel name content nothing_walked
    gather_node rel name (dir entries) = gather rel entries
    gather_node rel name (unreadable e) =
        with_context (err e) "failed to read source root {}" (txt (join root rel) ∷ [])

    pub gather : Text → Listing → Result Walked
    gather rel nil = ok nothing_walked
    gather rel (failed e) = err e
    gather rel (entry name node rest) = do
      here ←
          if is_ignored ignore name
          then ok nothing_walked
          else gather_node (below rel name) name node
      later ← gather rel rest
      ok (plus here later)

  -- What is walked behind a state.
  abbrev pub after : Walked → Result Walked → Result Walked
  after st r = r >>= λ w. ok (plus st w)

  after-after : (st a : Walked) (r : Result Walked) → after (plus st a) r ≡ after st (after a r)
  after-after st a (ok w) = ap ok (plus_assoc st a w)
  after-after st a (err e) = refl
  after-after st a panic = refl

  pub after-nothing : (r : Result Walked) → after nothing_walked r ≡ r
  after-nothing (ok w) = refl
  after-nothing (err e) = refl
  after-nothing panic = refl

  plus-nothing : (st : Walked) → plus st nothing_walked ≡ st
  plus-nothing st = walked_parts st.findings st.walked_any

  after-bind :
      (st : Walked) (r later : Result Walked) (next : Walked → Result Walked)
      → ((w : Walked) → next w ≡ after w later)
      → (after st r >>= next) ≡ after st (r >>= λ a. after a later)
  after-bind st (ok a) later next h = h (plus st a) ∙ after-after st a later
  after-bind st (err e) later next h = refl
  after-bind st panic later next h = refl

  read-after :
      (rel : Text) (content : Result Text) (st : Walked)
      → (content >>= λ c.
          ok (record { findings = analyze_file ia rel c no_ignore st.findings; walked_any = true }))
        ≡ after st (
            content >>= λ c.
            ok (record { findings = analyze_file ia rel c no_ignore []; walked_any = true }))
  read-after rel (ok c) st = ap ok (
      with_file st.findings (analyze_file ia rel c no_ignore []) st.walked_any
        (analyze_file-append ia rel c no_ignore st.findings))
  read-after rel (err e) st = refl
  read-after rel panic st = refl

  walk_file-after :
      (rel name : Text) (content : Result Text) (st : Walked)
      → walk_file ia no_ignore root ignore rel name content st
        ≡ after st (walk_file ia no_ignore root ignore rel name content nothing_walked)
  unfolding walk_file
  walk_file-after rel name content st = elim (Bool-cases (is_rust_source name)) [
    | inl e ↦
        rw e
          (read-after rel (with_context content "failed to read {}" (txt (join root rel) ∷ [])) st)
    | inr e ↦ rw e (ap ok (sym (plus-nothing st)))
  ]

  mutual
    unfolding walk_node gather_node

    walk_node-gather_node :
        (rel name : Text) (node : Source) (st : Walked)
        → walk_node ia no_ignore root ignore rel name node st ≡ after st (gather_node rel name node)
    walk_node-gather_node rel name (file content) st = walk_file-after rel name content st
    walk_node-gather_node rel name (dir entries) st = walk-gather rel entries st
    walk_node-gather_node rel name (unreadable e) st = refl

    pub walk-gather :
        (rel : Text) (l : Listing) (st : Walked)
        → walk ia no_ignore root ignore rel l st ≡ after st (gather rel l)
    walk-gather rel nil st = ap ok (sym (plus-nothing st))
    walk-gather rel (failed e) st = refl
    walk-gather rel (entry name node rest) st = elim (Bool-cases (is_ignored ignore name)) [
      | inl e ↦
          rw e (walk-gather rel rest st ∙ ap (after st) (sym (after-nothing (gather rel rest))))
      | inr e ↦ rw e (
          ap (λ r. r >>= walk ia no_ignore root ignore rel rest)
            (walk_node-gather_node (below rel name) name node st)
          ∙ after-bind st (gather_node (below rel name) name node) (gather rel rest)
              (walk ia no_ignore root ignore rel rest) (walk-gather rel rest))
    ]
