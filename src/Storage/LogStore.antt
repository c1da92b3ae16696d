-- ===== src/Storage/LogStore.antt =====
-- crates/settled-storage/src/log_store.rs.
pub mod Log
pub mod Reads
pub mod Appends
pub mod Batch
pub mod Cursor
pub mod Pages
use settled.Prelude.{
  ℕ, ◌+◌, ◌%◌, ◌^◌, List, [], ◌∷◌, ◌++◌, Option, none, some, ◌&&◌, ◌||◌, not, ltb, leb, ◌==◌,
  if◌then◌else◌, length, from_be_bytes, ℤ,
}
use settled.Prelude.Results.{Result, ok, err, ◌>>=◌, ok_or}
use settled.Core.Hash.{Bytes, Hash, bytes_eq, leaf_hash}
use settled.Storage.Types.{
  Error, rocks_db, encode_error, decode_error, corruption, bad_seq_key_length, bad_seq_value,
  to_array, LogEntryProto, LogEntry, log_entry_try_from,
}
use settled.Storage.Rows.{Row, u64_key, start, end, from_forward}
use settled.Storage.Rocks.{Rocks, Prost, Put, cf_log, cf_index}

module _ (r : Rocks) (m : Prost) where
  -- `DbInner`: the database and the counter `next_seq`.
  pub record DbInner : Type 0 where
    pub db : r.Db
    pub next_seq : ℕ

  -- `u64::from_be_bytes` of a key of the log.
  unfoldable pub seq_of_key : Bytes → Result Error ℕ
  seq_of_key k = do
    bytes ← ok_or (to_array 8 k) (corruption bad_seq_key_length)
    ok (from_be_bytes 0 bytes)

  -- `LogEntryProto::decode` and `LogEntry::try_from`.
  unfoldable pub entry_of_value : Bytes → Result Error LogEntry
  entry_of_value v = do proto ← ok_or (m.decode v) decode_error; log_entry_try_from proto

  module _ (sha256 : Bytes → Hash) where
    -- What `append` writes: the entry in the log, and its sequence number in the index.
    unfoldable pub append_puts : ℤ → ℕ → Bytes → Bytes → Result Error (List Put)
    append_puts timestamp_ns seq key data_bytes =
        let proto : LogEntryProto = record {
          seq = seq;
          timestamp_ns = timestamp_ns;
          key = key;
          data_bytes = data_bytes;
          leaf_hash = leaf_hash sha256 data_bytes;
        } in
        do
          value_buf ← ok_or (m.encode proto) encode_error
          ok (
              record { cf = cf_log; key = u64_key seq; value = value_buf }
              ∷ record { cf = cf_index; key = key; value = u64_key seq }
              ∷ [])

    -- The end of `append`: the result, and the state it leaves with the counter already raised.
    unfoldable pub appended : ℤ → DbInner → Result Error r.Db → Result Error (ℕ × ℤ) × DbInner
    appended timestamp_ns inner (ok db') = (
      ok (inner.next_seq, timestamp_ns),
      record { db = db'; next_seq = (inner.next_seq + 1) % 2 ^ 64 },
    )
    appended timestamp_ns inner (err e) =
        (err e, record { db = inner.db; next_seq = (inner.next_seq + 1) % 2 ^ 64 })

    -- `append`, with the clock's reading.
    unfoldable pub append : ℤ → DbInner → Bytes → Bytes → Result Error (ℕ × ℤ) × DbInner
    append timestamp_ns inner key data_bytes = appended timestamp_ns inner (do
      puts ← append_puts timestamp_ns inner.next_seq key data_bytes
      ok_or (r.write inner.db puts) rocks_db)

  unfoldable pub count : DbInner → ℕ
  count inner = inner.next_seq

  -- The two branches of `match get_cf(…)?`.
  unfoldable pub found_entry : Option Bytes → Result Error (Option LogEntry)
  found_entry (some v) = do entry ← entry_of_value v; ok (some entry)
  found_entry none = ok none

  unfoldable pub found_seq : Option Bytes → Result Error (Option ℕ)
  found_seq (some v) = do
    bytes ← ok_or (to_array 8 v) (corruption bad_seq_value)
    ok (some (from_be_bytes 0 bytes))
  found_seq none = ok none

  unfoldable pub get_by_seq : DbInner → ℕ → Result Error (Option LogEntry)
  get_by_seq inner seq = do
    found ← ok_or (r.get_cf inner.db cf_log (u64_key seq)) rocks_db
    found_entry found

  unfoldable pub get_seq_by_key : DbInner → Bytes → Result Error (Option ℕ)
  get_seq_by_key inner key = do
    found ← ok_or (r.get_cf inner.db cf_index key) rocks_db
    found_seq found

  -- The loop of `entries_by_key`; `found` is how many entries it has pushed.
  pub by_key_loop : List (Option Row) → Bytes → ℕ → ℕ → Result Error (List LogEntry × ℕ)
  by_key_loop [] key limit found = ok ([], 0)
  by_key_loop (none ∷ items) key limit found = err rocks_db
  by_key_loop (some (k, v) ∷ items) key limit found =
      let more = by_key_loop items key limit (found + 1) in
      let next = by_key_loop items key limit found in
      do
        seq ← seq_of_key k
        proto ← ok_or (m.decode v) decode_error
        let matching = (do
          entry ← log_entry_try_from proto
          let full = ok (entry ∷ [], (seq + 1) % 2 ^ 64)
          let others = (do (entries, cursor) ← more; ok (entry ∷ entries, cursor))
          if leb limit (found + 1) then full else others)
        if bytes_eq proto.key key then matching else next

  unfoldable pub entries_by_key : DbInner → Bytes → ℕ → ℕ → Result Error (List LogEntry × ℕ)
  unfolding by_key_loop
  entries_by_key inner key from_seq limit =
      if limit == 0
      then ok ([], 0)
      else by_key_loop (r.iterator_cf inner.db cf_log (from_forward (u64_key from_seq))) key limit 0

  -- The loop of `seq_range_paged`.
  pub paged_loop : List (Option Row) → ℕ → ℕ → ℕ → Result Error (List LogEntry × ℕ)
  paged_loop [] end_seq limit found = ok ([], 0)
  paged_loop (none ∷ items) end_seq limit found = err rocks_db
  paged_loop (some (k, v) ∷ items) end_seq limit found =
      let more = paged_loop items end_seq limit (found + 1) in
      do
        seq ← seq_of_key k
        let pushed = (do
          entry ← entry_of_value v
          let next = (seq + 1) % 2 ^ 64
          let full = ok (entry ∷ [], (if end_seq == 0 || ltb next end_seq then next else 0))
          let others = (do (entries, cursor) ← more; ok (entry ∷ entries, cursor))
          if leb limit (found + 1) then full else others)
        if not (end_seq == 0) && leb end_seq seq then ok ([], 0) else pushed

  unfoldable pub seq_range_paged : DbInner → ℕ → ℕ → ℕ → Result Error (List LogEntry × ℕ)
  unfolding paged_loop
  seq_range_paged inner start_seq end_seq limit =
      if limit == 0
      then ok ([], 0)
      else paged_loop (r.iterator_cf inner.db cf_log (from_forward (u64_key start_seq))) end_seq
          limit 0

  -- The loop of `seq_range`.
  pub range_loop : List (Option Row) → ℕ → Result Error (List LogEntry)
  range_loop [] end_seq = ok []
  range_loop (none ∷ items) end_seq = err rocks_db
  range_loop (some (k, v) ∷ items) end_seq =
      let more = range_loop items end_seq in
      do
        seq ← seq_of_key k
        let pushed = (do entry ← entry_of_value v; entries ← more; ok (entry ∷ entries))
        if leb end_seq seq then ok [] else pushed

  unfoldable pub seq_range : DbInner → ℕ → ℕ → Result Error (List LogEntry)
  unfolding range_loop
  seq_range inner start_seq end_seq =
      range_loop (r.iterator_cf inner.db cf_log (from_forward (u64_key start_seq))) end_seq

  -- The loop of `latest`.
  pub latest_loop : List (Option Row) → ℕ → ℕ → Result Error (List LogEntry)
  latest_loop [] n found = ok []
  latest_loop (none ∷ items) n found = err rocks_db
  latest_loop (some (k, v) ∷ items) n found =
      let more = latest_loop items n (found + 1) in
      do
        entry ← entry_of_value v
        let others = (do entries ← more; ok (entry ∷ entries))
        if leb n (found + 1) then ok (entry ∷ []) else others

  unfoldable pub latest : DbInner → ℕ → Result Error (List LogEntry)
  unfolding latest_loop
  latest inner n = if n == 0 then ok [] else latest_loop (r.iterator_cf inner.db cf_log end) n 0
