-- ===== src/Server/Deps.antt =====
-- What the server is built over: the interfaces of the crates that it and the storage use.

use settled.Core.Hash.{Bytes, Hash, IsHash}
use settled.Core.Ed25519.{Ed25519}
use settled.Storage.Rocks.{Rocks, Prost}
use settled.Storage.HeadStore.{HeadProst, KeyProst}
use settled.Server.RateLimit.{Floats}

pub record Deps : Type 1 where
  pub rocks : Rocks
  pub log_messages : Prost
  pub head_messages : HeadProst
  pub key_messages : KeyProst
  pub ed25519 : Ed25519
  pub floats : Floats
  -- SHA-256 of the sha2 crate, whose digests have 32 bytes.
  pub sha256 : Bytes → Hash
  pub length_sha256 : (t : Bytes) → IsHash (sha256 t)
  -- `hex::encode` of the hex crate, the bytes of its text.
  pub hex_encode : Bytes → Bytes
