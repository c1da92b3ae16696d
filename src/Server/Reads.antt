-- ===== src/Server/Reads.antt =====
-- crates/settled-server/src/service.rs: `get`, `get_latest`, `list_entries`, `get_by_key` and
-- `get_sth`. A blocking task that does not come back (`spawn_blocking` failing) is not modelled.
pub mod Heads
use settled.Prelude.{
  ℕ, List, [], ◌∷◌, Option, none, some, ltb, ◌==◌, if◌then◌else◌, length, map, min,
}
use settled.Prelude.Results.{Result, ok, err, ◌>>=◌, ok_or}
use settled.Core.Hash.{Bytes}
use settled.Storage.LogStore.{get_by_seq, seq_range_paged, entries_by_key, count}
use settled.Storage.LogStore
use settled.Storage.HeadStore.{at_size}
use settled.Storage.HeadStore
use settled.Storage.Types.{SignedTreeHead}
use settled.Server.Status.{
  Text, Status, not_found_error, invalid_argument_error, status_from, or_storage, seq_not_found,
  no_sth_available_yet, no_sth_at, key_must_not_be_empty,
}
use settled.Server.Messages.{Entry, ProtoSth, EntriesResponse, entry_to_proto, sth_to_proto}
use settled.Server.Deps.{Deps}
use settled.Server.State.{AppState}

abbrev pub max_by_key : ℕ
max_by_key = 1000

abbrev pub default_by_key : ℕ
default_by_key = 50

abbrev pub max_list : ℕ
max_list = 1000

abbrev pub default_list : ℕ
default_list = 50

module _ (d : Deps) where
  unfoldable pub get : AppState d → ℕ → Result Status (Option Entry)
  get s seq = do
    found ← or_storage (get_by_seq d.rocks d.log_messages s.inner seq)
    entry ← ok_or found (status_from (not_found_error (seq_not_found seq)))
    ok (some (entry_to_proto entry))

  unfoldable pub get_latest : AppState d → ℕ → Result Status EntriesResponse
  get_latest s req_n =
      let n = if req_n == 0 then 1 else min req_n s.max_get_latest in
      do
        entries ← or_storage (LogStore.latest d.rocks d.log_messages s.inner n)
        ok (record {
          entries = map entry_to_proto entries;
          next = count d.rocks d.log_messages s.inner;
        })

  unfoldable pub list_entries : AppState d → ℕ → ℕ → ℕ → ℕ → Result Status EntriesResponse
  list_entries s from_seq to_seq cursor req_limit =
      let limit = if req_limit == 0 then default_list else min req_limit max_list in
      let start = if ltb 0 cursor then cursor else from_seq in
      do
        (entries, next_cursor) ←
            or_storage (seq_range_paged d.rocks d.log_messages s.inner start to_seq limit)
        ok (record { entries = map entry_to_proto entries; next = next_cursor })

  unfoldable pub get_by_key : AppState d → Bytes → ℕ → ℕ → Result Status EntriesResponse
  get_by_key s key cursor req_limit =
      let limit = if req_limit == 0 then default_by_key else min req_limit max_by_key in
      let page = (do
        (entries, next_cursor) ←
            or_storage (entries_by_key d.rocks d.log_messages s.inner key cursor limit)
        ok (record { entries = map entry_to_proto entries; next = next_cursor })) in
      if length key == 0
      then err (status_from (invalid_argument_error key_must_not_be_empty))
      else page

  -- `heads.latest()` and `heads.at_size(n)`, with their error when there is none.
  unfoldable pub latest_head : AppState d → Result Status SignedTreeHead
  latest_head s = do
    found ← or_storage (HeadStore.latest d.rocks d.head_messages s.inner.db)
    ok_or found (status_from (not_found_error no_sth_available_yet))

  unfoldable pub head_at : (ℕ → Text) → AppState d → ℕ → Result Status SignedTreeHead
  head_at msg s tree_size = do
    found ← or_storage (at_size d.rocks d.head_messages s.inner.db tree_size)
    ok_or found (status_from (not_found_error (msg tree_size)))

  unfoldable pub get_sth : AppState d → ℕ → Result Status (Option ProtoSth)
  get_sth s tree_size = do
    sth ← (if tree_size == 0 then latest_head s else head_at no_sth_at s tree_size)
    ok (some (sth_to_proto sth))
