-- ===== src/Interfaces/Signatures.antt =====
-- ed25519_dalek, as src/sign.rs uses it.
use sorseal.Base.{◌≡◌, Bool, true, Option, some, Bytes, length, All}
use sorseal.Digest.Hex.{IsByte}

pub record Ed25519 : Type 1 where
  pub SigningKey : Type 0
  pub VerifyingKey : Type 0
  pub Signature : Type 0
  -- `SigningKey::from_bytes`, `to_bytes`, `verifying_key` and `sign`.
  pub from_seed : Bytes → SigningKey
  pub to_seed : SigningKey → Bytes
  pub verifying_key : SigningKey → VerifyingKey
  pub sign : SigningKey → Bytes → Signature
  -- `VerifyingKey::from_bytes`, `to_bytes` and `verify`.
  pub key_from_bytes : Bytes → Option VerifyingKey
  pub key_to_bytes : VerifyingKey → Bytes
  pub verify : VerifyingKey → Bytes → Signature → Bool
  -- `Signature::from_slice` and `to_bytes`.
  pub from_slice : Bytes → Option Signature
  pub to_bytes : Signature → Bytes

-- What the documentation promises of the keys and of honest signatures. That nobody else can sign is not assumed.
pub record Ed25519Laws (E : Ed25519) : Type 0 where
  pub from_seed-to_seed : (k : E.SigningKey) → E.from_seed (E.to_seed k) ≡ k
  pub length-to_seed : (k : E.SigningKey) → length (E.to_seed k) ≡ 32
  pub key_from_bytes-key_to_bytes :
      (k : E.SigningKey)
      → E.key_from_bytes (E.key_to_bytes (E.verifying_key k)) ≡ some (E.verifying_key k)
  pub length-key_to_bytes : (v : E.VerifyingKey) → length (E.key_to_bytes v) ≡ 32
  pub key_to_bytes-IsByte : (v : E.VerifyingKey) → All IsByte (E.key_to_bytes v)
  pub from_slice-to_bytes : (s : E.Signature) → E.from_slice (E.to_bytes s) ≡ some s
  pub verify-sign :
      (k : E.SigningKey) (bytes : Bytes)
      → E.verify (E.verifying_key k) bytes (E.sign k bytes) ≡ true
