-- ===== src/Manifest/Valid.antt =====
-- `Manifest::validate` accepts the well-formed manifests and no other.
use sorseal.Base.{
  ◌≡◌, refl, ◌↔◌, ◌≢◌, true, false, List, [], ◌∷◌, arith, ==_iff, text_eq, All, Text, ok, trim,
  contains,
}
use Prim.Native.String.{String}
use sorseal.Provenance.Valid.{is_blank_iff}
use sorseal.Manifest.{
  Artifact, Manifest, is_relative, segments, parent_dir, validate_tree_path, validate_artifacts,
  validate,
}

-- A relative path with no `..` in it.
pub record IsTreePath (p : Text) : Type 0 where
  pub named : p ≢ []
  pub relative : is_relative p ≡ true
  pub no_parent : contains parent_dir (segments p) ≡ false

pub record IsArtifact (a : Artifact) : Type 0 where
  pub id : trim a.id ≢ []
  pub command : trim a.build_command ≢ []
  pub wasm : IsTreePath a.wasm_path
  pub source : IsTreePath a.source_root

-- No id occurs twice.
abbrev pub DistinctIds : List Artifact → Type 0
DistinctIds [] = Unit
DistinctIds (a ∷ rest) = All (λ (b : Artifact). a.id ≢ b.id) rest × DistinctIds rest

pub record IsWellFormed (m : Manifest) : Type 0 where
  pub name : trim m.project.name ≢ []
  pub some_artifact : m.artifacts ≢ []
  pub each : All IsArtifact m.artifacts
  pub distinct : DistinctIds m.artifacts

IsTreePath-iff :
    (id : Text) (f : String) (p : Text) → (validate_tree_path id f p ≡ ok tt) ↔ IsTreePath p
unfolding validate_tree_path
IsTreePath-iff id f p = (
  (λ h. record {
    named = ground (arith, ==_iff p []);
    relative = ground arith;
    no_parent = ground arith;
  }),
  λ t. ground (arith, t.named, t.relative, t.no_parent, ==_iff p []),
)

-- The ids of the artifacts that follow are not among those seen.
abbrev NotSeen : List Text → List Artifact → Type 0
NotSeen seen = All (λ (b : Artifact). contains b.id seen ≡ false)

NotSeen-cons :
    (x : Text) (seen : List Text) (l : List Artifact)
    → NotSeen (x ∷ seen) l ↔ (All (λ (b : Artifact). x ≢ b.id) l × NotSeen seen l)
NotSeen-cons x seen [] = ground arith
NotSeen-cons x seen (b ∷ l) = ground (arith, ==_iff x b.id, NotSeen-cons x seen l)

-- One round of the loop: the checks of the first artifact, then the rest with its id seen.
validate_artifacts_iff :
    (seen : List Text) (a : Artifact) (l : List Artifact)
    → (validate_artifacts seen (a ∷ l) ≡ ok tt)
      ↔ (IsArtifact a × (contains a.id seen ≡ false) × (validate_artifacts (a.id ∷ seen) l ≡ ok tt))
unfolding validate_artifacts
validate_artifacts_iff seen a l = (
  (λ h. (
    record {
      id = ground (arith, is_blank_iff a.id);
      command = ground (arith, is_blank_iff a.build_command);
      wasm = (IsTreePath-iff a.id "wasm_path" a.wasm_path).0 (ground arith);
      source = (IsTreePath-iff a.id "source_root" a.source_root).0 (ground arith);
    },
    ground arith,
    ground arith,
  )),
  λ (w, n, h). ground (
    arith,
    w.id,
    w.command,
    is_blank_iff a.id,
    is_blank_iff a.build_command,
    (IsTreePath-iff a.id "wasm_path" a.wasm_path).1 w.wasm,
    (IsTreePath-iff a.id "source_root" a.source_root).1 w.source,
  ),
)

artifacts_iff :
    (seen : List Text) (l : List Artifact)
    → (validate_artifacts seen l ≡ ok tt) ↔ (All IsArtifact l × DistinctIds l × NotSeen seen l)
unfolding validate_artifacts
artifacts_iff seen [] = ground arith
artifacts_iff seen (a ∷ l) = (
  (λ h.
      let (w, n, later) = (validate_artifacts_iff seen a l).0 h in
      let (ws, d, ns) = (artifacts_iff (a.id ∷ seen) l).0 later in
      let (apart, rest) = (NotSeen-cons a.id seen l).0 ns in ((w, ws), (apart, d), (n, rest))),
  λ (ws, d, ns). (validate_artifacts_iff seen a l).1 (
    ws.0,
    ns.0,
    (artifacts_iff (a.id ∷ seen) l).1 (ws.1, d.1, (NotSeen-cons a.id seen l).1 (d.0, ns.1)),
  ),
)

NotSeen-nil : (l : List Artifact) → NotSeen [] l
NotSeen-nil [] = tt
NotSeen-nil (a ∷ l) = (refl, NotSeen-nil l)

-- A manifest passes `validate` exactly when it is well formed: it has a name and an artifact, the
-- ids are distinct, no id or command is blank, and the paths are relative with no `..` in them.
pub validate-IsWellFormed : (m : Manifest) → (validate m ≡ ok tt) ↔ IsWellFormed m
unfolding validate
validate-IsWellFormed m = (
  (λ h.
      let (ws, d, n) = (artifacts_iff [] m.artifacts).0 (ground arith) in
      record {
        name = ground (arith, is_blank_iff m.project.name);
        some_artifact = ground arith;
        each = ws;
        distinct = d;
      }),
  λ w. ground (
    arith,
    w.name,
    w.some_artifact,
    is_blank_iff m.project.name,
    (artifacts_iff [] m.artifacts).1 (w.each, w.distinct, NotSeen-nil m.artifacts),
  ),
)
