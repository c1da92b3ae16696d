-- ===== src/Core/Ed25519.antt =====
-- What the code relies on of the ed25519-dalek crate: an interface, with its documented behaviour.
use settled.Prelude.{Bool, true, Option, some, ◌≡◌, length}
use settled.Core.Hash.{Bytes}

pub record Ed25519 : Type 1 where
  pub SigningKey : Type 0
  pub VerifyingKey : Type 0
  -- `SigningKey::from_bytes`, `to_bytes`, `sign` and `verifying_key`.
  pub signing_key : Bytes → SigningKey
  pub signing_key_bytes : SigningKey → Bytes
  pub sign : SigningKey → Bytes → Bytes
  pub verifying_key : SigningKey → VerifyingKey
  -- `VerifyingKey::from_bytes`, `to_bytes`, `verify` and `verify_strict`.
  pub from_bytes : Bytes → Option VerifyingKey
  pub to_bytes : VerifyingKey → Bytes
  pub verify : VerifyingKey → Bytes → Bytes → Bool
  pub verify_strict : VerifyingKey → Bytes → Bytes → Bool
  -- A key comes back from its bytes, and both have fixed lengths.
  pub from_bytes-to_bytes : (k : VerifyingKey) → from_bytes (to_bytes k) ≡ some k
  pub length-to_bytes : (k : VerifyingKey) → length (to_bytes k) ≡ 32
  pub length-sign : (k : SigningKey) (m : Bytes) → length (sign k m) ≡ 64
  -- A signature verifies under the key that made it.
  pub verify-sign : (k : SigningKey) (m : Bytes) → verify (verifying_key k) m (sign k m) ≡ true
  pub verify_strict-sign :
      (k : SigningKey) (m : Bytes) → verify_strict (verifying_key k) m (sign k m) ≡ true
