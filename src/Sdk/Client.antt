-- ===== src/Sdk/Client.antt =====
-- sdks/rust/src/client.rs. The stub that tonic generates from the proto file is a parameter: what it
-- answers to a request. Connecting, and the stream of `watch_entries`, are not modelled.
pub mod EndToEnd
mod Examples
use settled.Prelude.{ℕ, List, [], ◌∷◌, ◌++◌, Option, none, some, ℤ, pos, map, ◌≡◌, Run, done, panic}
use mathlib.Core.Option
use settled.Prelude.Results.{Result, ok, err, ◌>>=◌}
use settled.Core.Hash.{Bytes}
use settled.Server.Status.{Status}
use settled.Server.Messages.{
  AppendRequest, AppendResponse, ProtoSth, InclusionProofResponse, ConsistencyProofResponse,
  EntriesResponse,
}
use settled.Server.Messages
use settled.Server.Access.{bearer}

-- `ClientError::Rpc`; the other errors are of connecting.
pub data ClientError : Type 0 where
  rpc : Status → ClientError

pub record SignedTreeHead : Type 0 where
  pub tree_size : ℕ
  pub root_hash : Bytes
  pub timestamp_ns : ℤ
  pub signature : Bytes
  pub public_key : Bytes
  pub key_version : ℕ

pub record AppendResult : Type 0 where
  pub seq : ℕ
  pub timestamp_ns : ℤ
  pub leaf_hash : Bytes
  pub key : Bytes

pub record Entry : Type 0 where
  pub seq : ℕ
  pub timestamp_ns : ℤ
  pub key : Bytes
  pub data_bytes : Bytes
  pub leaf_hash : Bytes

pub record InclusionProofResult : Type 0 where
  pub leaf_index : ℕ
  pub tree_size : ℕ
  pub proof : List Bytes
  pub sth : SignedTreeHead

pub record ConsistencyProofResult : Type 0 where
  pub old_size : ℕ
  pub new_size : ℕ
  pub proof : List Bytes
  pub old_sth : SignedTreeHead
  pub new_sth : SignedTreeHead

pub record GetLatestResult : Type 0 where
  pub entries : List Entry
  pub total_available : ℕ

-- `ListEntriesResult` and `GetByKeyResult`.
pub record PageResult : Type 0 where
  pub entries : List Entry
  pub next_cursor : ℕ

unfoldable pub from_pb_sth : ProtoSth → SignedTreeHead
from_pb_sth s = record {
  tree_size = s.tree_size;
  root_hash = s.root_hash;
  timestamp_ns = s.timestamp_ns;
  signature = s.signature;
  public_key = s.public_key;
  key_version = s.key_version;
}

unfoldable pub from_pb_entry : Messages.Entry → Entry
from_pb_entry e = record {
  seq = e.seq;
  timestamp_ns = e.timestamp_ns;
  key = e.key;
  data_bytes = e.data_bytes;
  leaf_hash = e.leaf_hash;
}

unfoldable pub append_result : AppendResponse → AppendResult
append_result r = record {
  seq = r.seq;
  timestamp_ns = r.timestamp_ns;
  leaf_hash = r.leaf_hash;
  key = r.key;
}

-- `unwrap_or_default` of a message: its fields are zero or empty.
unfoldable pub sth_or_default : Option ProtoSth → ProtoSth
sth_or_default (some s) = s
sth_or_default none = record {
  tree_size = 0;
  root_hash = [];
  timestamp_ns = pos 0;
  signature = [];
  public_key = [];
  key_version = 0;
}

unfoldable pub entry_or_default : Option Messages.Entry → Messages.Entry
entry_or_default (some e) = e
entry_or_default none = record {
  seq = 0;
  timestamp_ns = pos 0;
  key = [];
  data_bytes = [];
  leaf_hash = [];
}

-- A request with its `authorization` metadata.
pub record Request (A : Type 0) : Type 0 where
  pub authorization : Option Bytes
  pub body : A

-- The stub: what a request is answered with.
pub record Stub : Type 0 where
  pub append : Request AppendRequest → Result Status AppendResponse
  pub batch_append : Request (List AppendRequest) → Result Status (List AppendResponse)
  pub get : Request ℕ → Result Status (Option Messages.Entry)
  pub get_latest : Request ℕ → Result Status EntriesResponse
  pub get_sth : Request ℕ → Result Status (Option ProtoSth)
  pub inclusion_proof : Request (ℕ × ℕ) → Result Status InclusionProofResponse
  pub list_entries : Request (ℕ × ℕ × ℕ × ℕ) → Result Status EntriesResponse
  pub get_by_key : Request (Bytes × ℕ × ℕ) → Result Status EntriesResponse
  pub consistency_proof : Request (ℕ × ℕ) → Result Status ConsistencyProofResponse

pub record SettledClient : Type 0 where
  pub inner : Stub
  pub auth_header : Option Bytes

-- `MetadataValue::try_from` of tonic: the header's value, of which the bytes are those of the text,
-- unless no header can hold the text.
pub record HeaderText : Type 0 where
  pub try_from : Bytes → Option Bytes
  pub bytes-try_from : (text value : Bytes) → try_from text ≡ some value → value ≡ text

-- `Self { inner, auth_header }`.
abbrev pub client_of : Stub → Option Bytes → SettledClient
client_of inner auth_header = record { inner = inner; auth_header = auth_header }

-- `expect` panics on a key that no header can hold.
unfoldable pub expect_header : Stub → Option Bytes → Run SettledClient
expect_header inner none = panic
expect_header inner (some value) = done (client_of inner (some value))

-- The lines of `build` after the connection.
unfoldable pub build : HeaderText → Stub → Option Bytes → Run SettledClient
build h inner none = done (client_of inner none)
build h inner (some k) = expect_header inner (h.try_from (bearer ++ k))

-- `.await?` on what the stub answers.
abbrev pub answered {ℓ} : {A : Type ℓ} → Result Status A → Result ClientError A
answered (ok a) = ok a
answered (err e) = err (rpc e)

module _ (c : SettledClient) where
  unfoldable pub make_request : {A : Type 0} → A → Request A
  make_request body = record { authorization = c.auth_header; body = body }

  unfoldable pub append : Bytes → Bytes → Result ClientError AppendResult
  append key data_bytes = do
    r ← answered (c.inner.append (make_request (record { key = key; data_bytes = data_bytes })))
    ok (append_result r)

  unfoldable pub batch_append : List (Bytes × Bytes) → Result ClientError (List AppendResult)
  batch_append entries = do
    let proto_entries = map (λ e. record { key = e.0; data_bytes = e.1 }) entries
    r ← answered (c.inner.batch_append (make_request proto_entries))
    ok (map append_result r)

  unfoldable pub get : ℕ → Result ClientError Entry
  get seq = do
    r ← answered (c.inner.get (make_request seq))
    ok (from_pb_entry (entry_or_default r))

  unfoldable pub get_latest : ℕ → Result ClientError GetLatestResult
  get_latest n = do
    r ← answered (c.inner.get_latest (make_request n))
    ok (record { entries = map from_pb_entry r.entries; total_available = r.next })

  unfoldable pub get_sth : ℕ → Result ClientError SignedTreeHead
  get_sth tree_size = do
    r ← answered (c.inner.get_sth (make_request tree_size))
    ok (from_pb_sth (sth_or_default r))

  unfoldable pub inclusion_proof : ℕ → ℕ → Result ClientError InclusionProofResult
  inclusion_proof seq tree_size = do
    r ← answered (c.inner.inclusion_proof (make_request (seq, tree_size)))
    ok (record {
      leaf_index = r.leaf_index;
      tree_size = r.tree_size;
      proof = r.proof;
      sth = from_pb_sth (sth_or_default r.sth);
    })

  unfoldable pub list_entries : ℕ → ℕ → ℕ → ℕ → Result ClientError PageResult
  list_entries from_seq to_seq cursor limit = do
    r ← answered (c.inner.list_entries (make_request (from_seq, to_seq, cursor, limit)))
    ok (record { entries = map from_pb_entry r.entries; next_cursor = r.next })

  unfoldable pub get_by_key : Bytes → ℕ → ℕ → Result ClientError PageResult
  get_by_key key cursor limit = do
    r ← answered (c.inner.get_by_key (make_request (key, cursor, limit)))
    ok (record { entries = map from_pb_entry r.entries; next_cursor = r.next })

  unfoldable pub consistency_proof : ℕ → ℕ → Result ClientError ConsistencyProofResult
  consistency_proof old_size new_size = do
    r ← answered (c.inner.consistency_proof (make_request (old_size, new_size)))
    ok (record {
      old_size = r.old_size;
      new_size = r.new_size;
      proof = r.proof;
      old_sth = from_pb_sth (sth_or_default r.old_sth);
      new_sth = from_pb_sth (sth_or_default r.new_sth);
    })
