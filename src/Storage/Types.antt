-- ===== src/Storage/Types.antt =====
-- crates/settled-storage/src/error.rs, proto.rs and types.rs.
pub mod RoundTrip
use settled.Prelude.{ℕ, ◌==◌, Option, none, some, if◌then◌else◌, length, ℤ}
use settled.Prelude.Results.{Result, ok, ◌>>=◌, ok_or}
use settled.Core.Hash.{Bytes, Hash}

-- The texts of `Error::Corruption`.
pub data Corruption : Type 0 where
  leaf_hash_must_be_32_bytes root_hash_must_be_32_bytes signature_must_be_32_bytes : Corruption
  public_key_must_be_32_bytes tree_node_value_must_be_32_bytes : Corruption
  bad_seq_key_length bad_seq_value bad_tree_size_key_length bad_schema_version_length : Corruption

pub data Error : Type 0 where
  rocks_db encode_error decode_error : Error
  corruption : Corruption → Error
  schema_mismatch : ℕ → ℕ → Error

-- `<[u8; n]>::try_from` on a vector or a slice.
abbrev pub to_array : ℕ → Bytes → Option Bytes
to_array n v = if length v == n then some v else none

pub record LogEntryProto : Type 0 where
  pub seq : ℕ
  pub timestamp_ns : ℤ
  pub key : Bytes
  pub data_bytes : Bytes
  pub leaf_hash : Bytes

pub record LogEntry : Type 0 where
  pub seq : ℕ
  pub timestamp_ns : ℤ
  pub key : Bytes
  pub data_bytes : Bytes
  pub leaf_hash : Hash

-- `LogEntry::try_from`.
unfoldable pub log_entry_try_from : LogEntryProto → Result Error LogEntry
log_entry_try_from p = do
  leaf_hash ← ok_or (to_array 32 p.leaf_hash) (corruption leaf_hash_must_be_32_bytes)
  ok (record {
    seq = p.seq;
    timestamp_ns = p.timestamp_ns;
    key = p.key;
    data_bytes = p.data_bytes;
    leaf_hash = leaf_hash;
  })

-- `LogEntryProto::from`.
unfoldable pub log_entry_proto_from : LogEntry → LogEntryProto
log_entry_proto_from e = record {
  seq = e.seq;
  timestamp_ns = e.timestamp_ns;
  key = e.key;
  data_bytes = e.data_bytes;
  leaf_hash = e.leaf_hash;
}

pub record SignedTreeHeadProto : Type 0 where
  pub tree_size : ℕ
  pub root_hash : Bytes
  pub timestamp_ns : ℤ
  pub signature : Bytes
  pub public_key : Bytes
  pub key_version : ℕ

pub record SignedTreeHead : Type 0 where
  pub tree_size : ℕ
  pub root_hash : Hash
  pub timestamp_ns : ℤ
  pub signature : Bytes
  pub public_key : Bytes
  pub key_version : ℕ

-- `SignedTreeHead::try_from`.
unfoldable pub signed_tree_head_try_from : SignedTreeHeadProto → Result Error SignedTreeHead
signed_tree_head_try_from p = do
  root_hash ← ok_or (to_array 32 p.root_hash) (corruption root_hash_must_be_32_bytes)
  signature ← ok_or (to_array 64 p.signature) (corruption signature_must_be_32_bytes)
  public_key ← ok_or (to_array 32 p.public_key) (corruption public_key_must_be_32_bytes)
  ok (record {
    tree_size = p.tree_size;
    root_hash = root_hash;
    timestamp_ns = p.timestamp_ns;
    signature = signature;
    public_key = public_key;
    key_version = p.key_version;
  })

-- `SignedTreeHeadProto::from`.
unfoldable pub signed_tree_head_proto_from : SignedTreeHead → SignedTreeHeadProto
signed_tree_head_proto_from s = record {
  tree_size = s.tree_size;
  root_hash = s.root_hash;
  timestamp_ns = s.timestamp_ns;
  signature = s.signature;
  public_key = s.public_key;
  key_version = s.key_version;
}

pub record KeyRecordProto : Type 0 where
  pub version : ℕ
  pub public_key : Bytes
  pub activated_at_tree_size : ℕ

pub record KeyRecord : Type 0 where
  pub version : ℕ
  pub public_key : Bytes
  pub activated_at_tree_size : ℕ
