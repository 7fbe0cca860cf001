-- ===== src/Sign/Statement/Attested.antt =====
-- The subject check of src/sign.rs on a statement that `build_slsa_statement` builds.
use sorseal.Base.{
  ◌≡◌, refl, ap, ◌∙◌, ◌↔◌, Bool, true, ◌&&◌, List, [], ◌∷◌, map, ◌==◌, ==_iff, text_eq, any, all,
  All, ok, arith,
}
use sorseal.Base.Listed.{Listed, here, there, any_iff, all_iff}
use sorseal.Interfaces.Json.{Json, JsonLaws}
use sorseal.Provenance.{ArtifactProvenance, Provenance}
use sorseal.Sign.Envelope.RoundTrip.{field_str, field_array}
use sorseal.Sign.Statement.{
  is_text, subject, build_slsa_statement, digest_pointer, is_subject_of, subjects_match,
}

-- The same file with the same digest.
abbrev pub SameFile : ArtifactProvenance → ArtifactProvenance → Type 0
SameFile art a = (a.wasm_path ≡ art.wasm_path) × (a.wasm_sha256 ≡ art.wasm_sha256)

abbrev is_same_file : ArtifactProvenance → ArtifactProvenance → Bool
is_same_file art a = (a.wasm_path == art.wasm_path) && (a.wasm_sha256 == art.wasm_sha256)

-- Every artifact of `q` is among those of `p`, as far as a subject tells.
abbrev pub Attested : Provenance → Provenance → Type 0
Attested p q = All (λ art. Listed (SameFile art) p.artifacts) q.artifacts

is_same_file_iff : (art a : ArtifactProvenance) → (is_same_file art a ≡ true) ↔ SameFile art a
is_same_file_iff art a =
    ground (arith, ==_iff a.wasm_path art.wasm_path, ==_iff a.wasm_sha256 art.wasm_sha256)

module _ {J : Json} (laws : JsonLaws J) where
  is_subject_of-subject :
      (art a : ArtifactProvenance) → is_subject_of J art (subject J a) ≡ is_same_file art a
  unfolding is_subject_of subject digest_pointer is_text
  is_subject_of-subject art a =
      rw (field_str laws _ "name" a.wasm_path refl)
        (rw (laws.get-object _ "digest") (rw (field_str laws _ "sha256" a.wasm_sha256 refl) refl))

  any-subjects :
      (art : ArtifactProvenance) (l : List ArtifactProvenance)
      → any (is_subject_of J art) (map (subject J) l) ≡ any (is_same_file art) l
  any-subjects art [] = refl
  any-subjects art (a ∷ l) = rw (is_subject_of-subject art a) (rw (any-subjects art l) refl)

  all-subjects :
      (l arts : List ArtifactProvenance)
      → all (λ art. any (is_subject_of J art) (map (subject J) l)) arts
        ≡ all (λ art. any (is_same_file art) l) arts
  all-subjects l [] = refl
  all-subjects l (art ∷ arts) = rw (any-subjects art l) (rw (all-subjects l arts) refl)

-- The subject check of a statement that was built for `p`, against `q`: it has an answer, and this is true exactly
-- when each artifact of `q` is in `p` with the same path and the same wasm digest.
pub subjects_match-Attested :
    (J : Json) (laws : JsonLaws J) (p q : Provenance)
    → (answer : Bool) × (subjects_match J (build_slsa_statement J p) q ≡ ok answer)
      × ((answer ≡ true) ↔ Attested p q)
unfolding subjects_match build_slsa_statement
subjects_match-Attested J laws p q = (
  all (λ art. any (is_same_file art) p.artifacts) q.artifacts,
  rw (field_array laws _ "subject" (map (subject J) p.artifacts) refl)
      (ap ok (all-subjects laws p.artifacts q.artifacts)),
  all_iff (λ art. any (is_same_file art) p.artifacts) (λ art. Listed (SameFile art) p.artifacts)
      (λ art. any_iff (is_same_file art) (SameFile art) (is_same_file_iff art) p.artifacts)
      q.artifacts,
)

All-within :
    (l all_of : List ArtifactProvenance)
    → ((art : ArtifactProvenance) → Listed (SameFile art) l → Listed (SameFile art) all_of)
    → All (λ art. Listed (SameFile art) all_of) l
All-within [] all_of sub = tt
All-within (art ∷ l) all_of sub =
    (sub art (here (refl, refl)), All-within l all_of (λ a h. sub a (there h)))

-- A record is attested by its own statement.
pub subjects_match_self :
    (J : Json) (laws : JsonLaws J) (p : Provenance)
    → subjects_match J (build_slsa_statement J p) p ≡ ok true
subjects_match_self J laws p =
    let (answer, is, iff) = subjects_match-Attested J laws p p in
    is ∙ ap ok (iff.1 (All-within p.artifacts p.artifacts (λ a h. h)))
