-- ===== src/Tests/Keys.antt =====
-- A drive, a key scheme and a writer of values to run the commands on keys and attestations with.
use sorseal.Base.{
  ℕ, ◌≡◌, refl, sym, ◌∙◌, ◌↔◌, ap, Bool, true, false, List, [], ◌∷◌, Option, none, some,
  if◌then◌else◌, nat_beq, ◌==◌, ==_refl, text_eq, length, replicate, text, Text, Bytes, ok, ok_or,
  All, arith,
}
use sorseal.Base.Dict.{get, insert, get-insert}
use sorseal.Digest.Hex.{IsByte}
use sorseal.Interfaces.Signatures.{Ed25519, Ed25519Laws}
use sorseal.Interfaces.Serde.{Serde}
use sorseal.Interfaces.Drive.{Drive, DriveLaws, Apart}
use sorseal.Provenance.{Provenance}
use sorseal.Provenance.File.{load}
use sorseal.Sign.Envelope.{sign_dsse}
use sorseal.Sign.Statement.{build_slsa_statement, subjects_match}
use sorseal.Sign.Statement.Attested.{subjects_match-Attested, Attested}
use sorseal.Sign.Commands.{public_path, keygen_command, sign_command, verify_attestation_command}
use sorseal.Sign.Commands.RoundTrip.{verify_attestation_command-sign_command}
use sorseal.Sign.Commands.Accepted.{Accepted}
use sorseal.Tests.Concrete.{
  plain_services, plain_services_laws, plain_base64, json_values, JsonValue,
}
use sorseal.Tests.Records.{sealed_record}

abbrev is_some : Option Bytes → Bool
is_some none = false
is_some (some b) = true

-- Files by their paths; every call succeeds.
abbrev pub plain_drive : Drive
plain_drive = record {
  State = List (Text × Bytes);
  exists = λ s p. is_some (get p s);
  read = λ s p. ok_or (get p s) "No such file or directory" [];
  write = λ s p bs. (ok tt, insert p bs s);
  create_dir_all = λ s p. (ok tt, s);
  set_permissions = λ s p m. (ok tt, s);
}

is_some-read :
    (o : Option Bytes) {bytes : Bytes}
    → ok_or o "No such file or directory" [] ≡ ok bytes
    → is_some o ≡ true
is_some-read none h = cc
is_some-read (some b) h = refl

write_eq :
    (s t : List (Text × Bytes)) (p q : Text) (bs : Bytes)
    → plain_drive.write s p bs ≡ (ok tt, t)
    → get q t ≡ (if p == q then some bs else get q s)
write_eq s t p q bs h = ap (λ r. get q r.1) (sym h) ∙ get-insert p q bs s

plain_drive_laws : DriveLaws plain_drive
plain_drive_laws = record {
  read-write = λ s t p bs h. rw (write_eq s t p p bs h) (rw (==_refl p) refl);
  read-create_dir_all = λ s dir p h. h;
  read-set_permissions = λ s secret p h. h;
  exists-read = λ s p h. is_some-read (get p s) h;
}

apart : (p q : Text) → (p == q) ≡ false → Apart plain_drive p q
apart p q h s t bs wrote = rw (write_eq s t p q bs wrote) (rw h refl)

-- Two keys, told by the first byte; a signature is the message with the key before it.
abbrev byte_of : Bool → ℕ
byte_of true = 1
byte_of false = 0

abbrev key_of : Bytes → Bool
key_of [] = false
key_of (b ∷ bs) = nat_beq b 1

abbrev two_keys : Ed25519
two_keys = record {
  SigningKey = Bool;
  VerifyingKey = Bool;
  Signature = Bytes;
  from_seed = key_of;
  to_seed = λ k. replicate 32 (byte_of k);
  verifying_key = λ k. k;
  sign = λ k m. byte_of k ∷ m;
  key_from_bytes = λ bs. some (key_of bs);
  key_to_bytes = λ k. replicate 32 (byte_of k);
  verify = λ k m s. s == byte_of k ∷ m;
  from_slice = some;
  to_bytes = λ s. s;
}

key_of-replicate : (k : Bool) → key_of (replicate 32 (byte_of k)) ≡ k
key_of-replicate true = refl
key_of-replicate false = refl

replicate-IsByte : (k : Bool) → All IsByte (replicate 32 (byte_of k))
replicate-IsByte true = ground arith
replicate-IsByte false = ground arith

two_keys_laws : Ed25519Laws two_keys
two_keys_laws = record {
  from_seed-to_seed = key_of-replicate;
  length-to_seed = λ k. refl;
  key_from_bytes-key_to_bytes = λ k. ap some (key_of-replicate k);
  length-key_to_bytes = λ k. refl;
  key_to_bytes-IsByte = replicate-IsByte;
  from_slice-to_bytes = λ s. refl;
  verify-sign = λ k m. ==_refl (byte_of k ∷ m);
}

-- A writer that stands for one statement and one envelope.
abbrev fixed : JsonValue → JsonValue → Serde json_values
fixed statement env = record {
  to_vec = λ v. [];
  from_slice = λ bs. some statement;
  to_string_pretty = λ v. [];
  from_str = λ s. some env;
}

abbrev writes : Serde json_values
writes =
    let statement = build_slsa_statement json_values sealed_record in
    fixed statement (sign_dsse json_values plain_base64 two_keys true [])

abbrev as_sealed : Text → Option Provenance
as_sealed s = some sealed_record

abbrev key_path : Text
key_path = b'k' ∷ []

abbrev public_key_path : Text
public_key_path = b'k' ∷ b'.' ∷ b'p' ∷ b'u' ∷ b'b' ∷ []

public_path_default : public_path key_path none ≡ public_key_path
unfolding public_path sorseal.Base.Paths.set_extension sorseal.Base.Paths.before_last
    sorseal.Base.Paths.name_with_extension sorseal.Base.Paths.after_last text
public_path_default = refl

public_apart : (public_path key_path none == key_path) ≡ false
unfolding public_path sorseal.Base.Paths.set_extension sorseal.Base.Paths.before_last
    sorseal.Base.Paths.name_with_extension sorseal.Base.Paths.after_last
public_apart = refl

abbrev output_path : Text
output_path = b'o' ∷ []

output_apart : (output_path == public_path key_path none) ≡ false
unfolding public_path sorseal.Base.Paths.set_extension sorseal.Base.Paths.before_last
    sorseal.Base.Paths.name_with_extension sorseal.Base.Paths.after_last
output_apart = refl

abbrev record_path : Text
record_path = b'r' ∷ []

abbrev on_disk : List (Text × Bytes)
on_disk = (record_path, []) ∷ []

abbrev with_keys : List (Text × Bytes)
with_keys = (keygen_command plain_drive two_keys true key_path none on_disk).1

keys_made : keygen_command plain_drive two_keys true key_path none on_disk ≡ (ok 0, with_keys)
unfolding keygen_command sorseal.Sign.Keys.keygen
keys_made = refl

record_loads : load plain_drive as_sealed with_keys record_path ≡ ok sealed_record
unfolding load sorseal.Interfaces.Drive.read_to_string get keygen_command sorseal.Sign.Keys.keygen
    insert sorseal.Sign.Keys.make_parent sorseal.Base.Paths.parent sorseal.Base.Paths.before_last
    public_path sorseal.Base.Paths.set_extension sorseal.Base.Paths.name_with_extension
    sorseal.Base.Paths.after_last sorseal.Base.Utf8.from_utf8 sorseal.Base.Utf8.read_bytes
    sorseal.Provenance.validate sorseal.Provenance.format_name sorseal.Base.Utf8.as_bytes
    sorseal.Base.byte_len sorseal.Base.is_ascii_hexdigit sorseal.Base.is_whitespace text
    sorseal.Base.trim sorseal.Base.trim_cons sorseal.Base.trim_end sorseal.Base.trim_start
    sorseal.Base.utf8_width sorseal.Digest.Hex.hex sorseal.Digest.Hex.hex_digit
    sorseal.Provenance.is_blank sorseal.Provenance.is_hex64 sorseal.Provenance.validate_analysis
    sorseal.Provenance.validate_artifacts
record_loads = refl

abbrev with_attestation : List (Text × Bytes)
with_attestation =
    (sign_command plain_services writes plain_drive two_keys as_sealed key_path record_path
      output_path with_keys).1

attestation_made :
    sign_command plain_services writes plain_drive two_keys as_sealed key_path record_path
      output_path with_keys
    ≡ (ok 0, with_attestation)
unfolding load sorseal.Interfaces.Drive.read_to_string get keygen_command sorseal.Sign.Keys.keygen
    insert sorseal.Sign.Keys.make_parent sorseal.Base.Paths.parent sorseal.Base.Paths.before_last
    public_path sorseal.Base.Paths.set_extension sorseal.Base.Paths.name_with_extension
    sorseal.Base.Paths.after_last sorseal.Base.Utf8.from_utf8 sorseal.Base.Utf8.read_bytes
    sorseal.Provenance.validate sorseal.Provenance.format_name sorseal.Base.Utf8.as_bytes
    sorseal.Base.byte_len sorseal.Base.is_ascii_hexdigit sorseal.Base.is_whitespace text
    sorseal.Base.trim sorseal.Base.trim_cons sorseal.Base.trim_end sorseal.Base.trim_start
    sorseal.Base.utf8_width sorseal.Digest.Hex.hex sorseal.Digest.Hex.hex_digit
    sorseal.Provenance.is_blank sorseal.Provenance.is_hex64 sorseal.Provenance.validate_analysis
    sorseal.Provenance.validate_artifacts sign_command sorseal.Sign.Keys.load_signing_key
    sorseal.Sign.Commands.sign_with sorseal.Sign.Keys.attest sign_dsse
attestation_made = refl

verify_attestation_command-sign_command_example :
    verify_attestation_command plain_services writes plain_drive two_keys as_sealed
      (public_path key_path none)
      output_path
      record_path
      with_attestation
    ≡ ok 0
verify_attestation_command-sign_command_example =
    verify_attestation_command-sign_command plain_services plain_services_laws writes plain_drive
      plain_drive_laws two_keys two_keys_laws as_sealed true sealed_record key_path output_path
      record_path none on_disk with_keys with_attestation keys_made record_loads attestation_made
      (apart (public_path key_path none) key_path public_apart)
      (apart output_path (public_path key_path none) output_apart)
      (apart output_path record_path refl) refl (refl, tt)

subjects_match-Attested_example :
    (answer : Bool) × (subjects_match json_values
        (build_slsa_statement json_values sealed_record)
        sealed_record
      ≡ ok answer)
    × ((answer ≡ true) ↔ Attested sealed_record sealed_record)
subjects_match-Attested_example =
    subjects_match-Attested json_values plain_services_laws.json_laws sealed_record sealed_record
