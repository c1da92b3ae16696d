-- ===== src/Core/Sth.antt =====
-- crates/settled-core/src/sth.rs: what is signed of a tree head.
pub mod Payload
use settled.Prelude.{ℕ, ◌++◌, Bool, be_bytes, ℤ, bit_pattern}
use settled.Core.Hash.{Bytes, Hash}
use settled.Core.Ed25519.{Ed25519}

-- tree_size (u64 BE) || root_hash (32 bytes) || timestamp_ns (i64 BE).
unfoldable pub signing_payload : ℕ → Hash → ℤ → Bytes
signing_payload tree_size root_hash timestamp_ns =
    be_bytes 8 tree_size ++ (root_hash ++ be_bytes 8 (bit_pattern timestamp_ns))

module _ (e : Ed25519) where
  unfoldable pub sign_tree_head : e.SigningKey → ℕ → Hash → ℤ → Bytes
  sign_tree_head key tree_size root_hash timestamp_ns =
      e.sign key (signing_payload tree_size root_hash timestamp_ns)

  unfoldable pub verify_tree_head : e.VerifyingKey → ℕ → Hash → ℤ → Bytes → Bool
  verify_tree_head key tree_size root_hash timestamp_ns signature =
      e.verify key (signing_payload tree_size root_hash timestamp_ns) signature
