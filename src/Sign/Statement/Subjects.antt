-- ===== src/Sign/Statement/Subjects.antt =====
-- What the subject check of src/sign.rs answers.
use sorseal.Base.{
  ◌≡◌, ap, ◌↔◌, true, List, Option, none, some, ==_iff, text_eq, any, all, All, Text, ok, and_then,
  arith, ok_or_then-eq-ok,
}
use sorseal.Base.Listed.{Listed, any_iff, all_iff}
use sorseal.Interfaces.Json.{Json}
use sorseal.Provenance.{ArtifactProvenance, Provenance}
use sorseal.Sign.Statement.{is_text, digest_pointer, is_subject_of, subjects_match}

is_text_iff : (o : Option Text) (s : Text) → (is_text o s ≡ true) ↔ (o ≡ some s)
unfolding is_text
is_text_iff none s = ground arith
is_text_iff (some t) s = ground (arith, ==_iff t s)

module _ (J : Json) where
  -- A subject with the path and the wasm digest of an artifact.
  abbrev pub IsSubject : ArtifactProvenance → J.Value → Type 0
  IsSubject art s =
      (and_then (J.get s "name") J.as_str ≡ some art.wasm_path)
      × (and_then (digest_pointer J s) J.as_str ≡ some art.wasm_sha256)

  -- The statement has subjects, and every artifact is among them.
  abbrev pub NamesAll : J.Value → Provenance → Type 0
  NamesAll statement p =
      (subjects : List J.Value) × (and_then (J.get statement "subject") J.as_array ≡ some subjects)
      × All (λ art. Listed (IsSubject art) subjects) p.artifacts

  is_subject_of_iff :
      (art : ArtifactProvenance) (s : J.Value) → (is_subject_of J art s ≡ true) ↔ IsSubject art s
  unfolding is_subject_of
  is_subject_of_iff art s =
      let name = is_text_iff (and_then (J.get s "name") J.as_str) art.wasm_path in
      let sha = is_text_iff (and_then (digest_pointer J s) J.as_str) art.wasm_sha256 in
      ground (arith, name, sha)

  all_subjects_iff :
      (subjects : List J.Value) (arts : List ArtifactProvenance)
      → (all (λ art. any (is_subject_of J art) subjects) arts ≡ true)
        ↔ All (λ art. Listed (IsSubject art) subjects) arts
  all_subjects_iff subjects arts =
      all_iff (λ art. any (is_subject_of J art) subjects) (λ art. Listed (IsSubject art) subjects)
        (λ art. any_iff (is_subject_of J art) (IsSubject art) (is_subject_of_iff art) subjects) arts

  pub subjects_match_iff :
      (statement : J.Value) (p : Provenance)
      → (subjects_match J statement p ≡ ok true) ↔ NamesAll statement p
  unfolding subjects_match
  subjects_match_iff statement p = (
    (λ h.
        let (subjects, found, rest) =
          ok_or_then-eq-ok (and_then (J.get statement "subject") J.as_array) _ _ _ h in
        (subjects, found, (all_subjects_iff subjects p.artifacts).0 (ground (arith, rest)))),
    (λ (subjects, found, names).
        rw found (ap ok ((all_subjects_iff subjects p.artifacts).1 names))),
  )
