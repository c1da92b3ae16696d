-- ===== src/Server/Messages.antt =====
-- The messages of proto/settled.v1.proto that the service answers with, where a message within a
-- message is an `Option`, and the conversions of
-- crates/settled-server/src/service.rs to them.
use settled.Prelude.{ℕ, List, Option, ℤ}
use settled.Core.Hash.{Bytes}
use settled.Storage.Types.{LogEntry, SignedTreeHead}

pub record Entry : Type 0 where
  pub seq : ℕ
  pub timestamp_ns : ℤ
  pub key : Bytes
  pub data_bytes : Bytes
  pub leaf_hash : Bytes

pub record AppendRequest : Type 0 where
  pub key : Bytes
  pub data_bytes : Bytes

pub record AppendResponse : Type 0 where
  pub seq : ℕ
  pub timestamp_ns : ℤ
  pub leaf_hash : Bytes
  pub key : Bytes

pub record ProtoSth : Type 0 where
  pub tree_size : ℕ
  pub root_hash : Bytes
  pub timestamp_ns : ℤ
  pub signature : Bytes
  pub public_key : Bytes
  pub key_version : ℕ

pub record InclusionProofResponse : Type 0 where
  pub leaf_index : ℕ
  pub tree_size : ℕ
  pub proof : List Bytes
  pub sth : Option ProtoSth

pub record ConsistencyProofResponse : Type 0 where
  pub old_size : ℕ
  pub new_size : ℕ
  pub proof : List Bytes
  pub old_sth : Option ProtoSth
  pub new_sth : Option ProtoSth

-- A page: the entries and `next_cursor`, or `total_available`.
pub record EntriesResponse : Type 0 where
  pub entries : List Entry
  pub next : ℕ

unfoldable pub sth_to_proto : SignedTreeHead → ProtoSth
sth_to_proto s = record {
  tree_size = s.tree_size;
  root_hash = s.root_hash;
  timestamp_ns = s.timestamp_ns;
  signature = s.signature;
  public_key = s.public_key;
  key_version = s.key_version;
}

-- The `Entry` that the handlers build of a stored entry.
unfoldable pub entry_to_proto : LogEntry → Entry
entry_to_proto e = record {
  seq = e.seq;
  timestamp_ns = e.timestamp_ns;
  key = e.key;
  data_bytes = e.data_bytes;
  leaf_hash = e.leaf_hash;
}
