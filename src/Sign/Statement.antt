-- ===== src/Sign/Statement.antt =====
-- `build_slsa_statement` and `subjects_match` of src/sign.rs.
pub mod Subjects
pub mod Attested
use sorseal.Base.{
  Bool, true, false, not, ◌&&◌, ◌++◌, List, [], ◌∷◌, map, Option, none, some, ◌==◌, text_eq,
  if◌then◌else◌, any, all, text, Text, Result, ok, ◌>>=◌, ok_or, and_then, head?,
}
use sorseal.Interfaces.Json.{Json}
use sorseal.Provenance.{GitState, ArtifactProvenance, Provenance}

-- `Option<&str> == Some(s)`.
unfoldable pub is_text : Option Text → Text → Bool
is_text none s = false
is_text (some t) s = t == s

-- The build that the first artifact belongs to, and when it was made.
unfoldable pub invocation : GitState → Option ArtifactProvenance → Text × Text
invocation git (some a) =
    (if git.present then git.commit else text "build:" ++ a.built_at, a.built_at)
invocation git none = ([], [])

module _ (J : Json) where
  unfoldable pub subject : ArtifactProvenance → J.Value
  subject a = J.object (
      ("name", J.string a.wasm_path)
      ∷ ("digest", J.object (("sha256", J.string a.wasm_sha256) ∷ []))
      ∷ [])

  unfoldable pub internal_artifact : ArtifactProvenance → J.Value
  internal_artifact a = J.object (
      ("id", J.string a.id)
      ∷ ("command", J.string a.command)
      ∷ ("source_root", J.string a.source_root)
      ∷ ("source_sha256", J.string a.source_sha256)
      ∷ [])

  unfoldable pub dependency : ArtifactProvenance → J.Value
  dependency a = J.object (
      ("uri", J.string (text "git+" ++ a.source_root))
      ∷ ("digest", J.object (("sha256", J.string a.source_sha256) ∷ []))
      ∷ [])

  unfoldable pub build_definition : Provenance → J.Value
  build_definition p = J.object (
      ("buildType", J.string (text "https://breachdirect.dev/sorseal/build/v1"))
      ∷ (
        "externalParameters",
        J.object (("toolchain", J.string p.toolchain) ∷ ("project", J.string p.project) ∷ []),
      )
      ∷ (
        "internalParameters",
        J.object (("artifacts", J.array (map internal_artifact p.artifacts)) ∷ []),
      )
      ∷ ("resolvedDependencies", J.array (map dependency p.artifacts))
      ∷ [])

  unfoldable pub run_details : Provenance → J.Value
  run_details p =
      let (invocation_id, started) = invocation p.git (head? p.artifacts) in
      J.object (
        (
          "builder",
          J.object (("id", J.string (text "https://github.com/BreachDirect/sorseal")) ∷ []),
        )
        ∷ ("buildType", J.string (text "https://breachdirect.dev/sorseal/build/v1"))
        ∷ (
          "metadata",
          J.object (
              ("invocationId", J.string invocation_id)
              ∷ ("startedOn", J.string started)
              ∷ ("finishedOn", J.string started)
              ∷ []),
        )
        ∷ (
          "byproducts",
          J.array (
              J.object (("name", J.string (text "format")) ∷ ("value", J.string p.format) ∷ [])
              ∷ []),
        )
        ∷ [])

  unfoldable pub build_slsa_statement : Provenance → J.Value
  build_slsa_statement p = J.object (
      ("_type", J.string (text "https://in-toto.io/Statement/v1"))
      ∷ ("subject", J.array (map subject p.artifacts))
      ∷ ("predicateType", J.string (text "https://slsa.dev/provenance/v1"))
      ∷ (
        "predicate",
        J.object (("buildDefinition", build_definition p) ∷ ("runDetails", run_details p) ∷ []),
      )
      ∷ [])

  -- `pointer("/digest/sha256")`, on an object.
  unfoldable pub digest_pointer : J.Value → Option J.Value
  digest_pointer s = and_then (J.get s "digest") (λ d. J.get d "sha256")

  -- Whether a subject names the artifact's file and has its digest.
  unfoldable pub is_subject_of : ArtifactProvenance → J.Value → Bool
  is_subject_of art s =
      is_text (and_then (J.get s "name") J.as_str) art.wasm_path
      && is_text (and_then (digest_pointer s) J.as_str) art.wasm_sha256

  -- The loop over the artifacts ends at the first that no subject is of.
  unfoldable pub subjects_match : J.Value → Provenance → Result Bool
  subjects_match statement p = do
    subjects ←
        ok_or (and_then (J.get statement "subject") J.as_array) "statement has no 'subject' array"
          []
    ok (all (λ art. any (is_subject_of art) subjects) p.artifacts)
