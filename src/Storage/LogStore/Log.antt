-- ===== src/Storage/LogStore/Log.antt =====
-- The log that a database holds: entries numbered from 0, and how the loops of log_store.rs read
-- the rows that they stand in.
use settled.Prelude.{
  ℕ, zero, suc, ◌+◌, ◌-◌, ◌^◌, ◌<◌, List, [], ◌∷◌, some, ◌≡◌, refl, ap, arith, inl, inr, length,
  take, drop, map, All, IsI64, ==_iff, le→leb, leb_gt, le-cases, lt→ltb, ltb_ge,
}
use settled.Prelude.Results.{ok}
use settled.Core.Hash.{IsHash}
use settled.Core.Split.{IsU64}
use settled.Storage.Types.{LogEntry, log_entry_proto_from}
use settled.Storage.Types.RoundTrip.{log_entry_try_from-log_entry_proto_from}
use settled.Storage.Rows.{Row, u64_key, rows_from}
use settled.Storage.Rows.BigEndian.{lex_lt-u64_key, length-u64_key, from_be_bytes-u64_key}
use settled.Storage.Rocks.{Rocks, Prost, cf_log}
use settled.Storage.LogStore.{DbInner, seq_of_key, entry_of_value, range_loop, latest_loop}

-- What the types `u64`, `i64` and `[u8; 32]` say of the fields.
abbrev pub IsEntry : LogEntry → Type 0
IsEntry e = IsU64 e.seq × IsI64 e.timestamp_ns × IsHash e.leaf_hash

abbrev pub IsNumbered : ℕ → List LogEntry → Type 0
IsNumbered n [] = Unit
IsNumbered n (e ∷ es) = (e.seq ≡ n) × IsNumbered (n + 1) es

valid : (e : LogEntry) → IsU64 e.seq → IsU64 (log_entry_proto_from e).seq
unfolding log_entry_proto_from
valid e h = h

in_range : (e : LogEntry) → IsI64 e.timestamp_ns → IsI64 (log_entry_proto_from e).timestamp_ns
unfolding log_entry_proto_from
in_range e h = h

pub take_nil {ℓ} : {A : Type ℓ} (n : ℕ) → [] ≡ take {A = A} n []
take_nil zero = refl
take_nil (suc n) = refl

pub drop_nil {ℓ} : {A : Type ℓ} (n : ℕ) → drop {A = A} n [] ≡ []
drop_nil zero = refl
drop_nil (suc n) = refl

module _ (r : Rocks) (m : Prost) where
  abbrev pub log_row : LogEntry → Row
  log_row e = (u64_key e.seq, m.encoded (log_entry_proto_from e))

  -- The database can be read, its log holds the entries, and the counter is their number.
  abbrev pub IsLog : DbInner r m → List LogEntry → Type 0
  IsLog inner entries =
      r.IsReadable inner.db
      × (r.rows inner.db cf_log ≡ map log_row entries)
      × All IsEntry entries
      × IsNumbered 0 entries
      × (inner.next_seq ≡ length entries)
      × (length entries < 2 ^ 64)

  pub seq_of_key-u64_key : (n : ℕ) → IsU64 n → seq_of_key r m (u64_key n) ≡ ok n
  unfolding seq_of_key
  seq_of_key-u64_key n h =
      rw ((==_iff (length (u64_key n)) 8).1 (length-u64_key n), from_be_bytes-u64_key n h)

  pub entry_of_value-encoded :
      (e : LogEntry) → IsEntry e → entry_of_value r m (m.encoded (log_entry_proto_from e)) ≡ ok e
  unfolding entry_of_value
  entry_of_value-encoded e (s, t, h) =
      rw (m.decode-encoded (log_entry_proto_from e) (valid e s) (in_range e t))
        (log_entry_try_from-log_entry_proto_from e h)

  pub rows_from-numbered :
      (s n : ℕ) (es : List LogEntry)
      → IsU64 s
      → All IsEntry es
      → IsNumbered n es
      → rows_from (u64_key s) (map log_row es) ≡ map log_row (drop (s - n) es)
  unfolding rows_from
  rows_from-numbered s n [] hs all num = rw (drop_nil {A = LogEntry} (s - n))
  rows_from-numbered s n (e ∷ es) hs (he, all) (at, num) = elim (le-cases s n) [
    | inl past ↦
        let none_dropped : s - n ≡ 0 = omega arith in
        rw (lex_lt-u64_key e.seq s he.0 hs, at, ltb_ge n s past, none_dropped)
    | inr before ↦
        let one_more : s - n ≡ suc (s - (n + 1)) = omega arith in
        rw (
          lex_lt-u64_key e.seq s he.0 hs,
          at,
          lt→ltb n s before,
          rows_from-numbered s (n + 1) es hs all num,
          one_more,
        )
  ]

  pub range_loop-numbered :
      (end_seq n : ℕ) (es : List LogEntry)
      → All IsEntry es
      → IsNumbered n es
      → range_loop r m (map some (map log_row es)) end_seq ≡ ok (take (end_seq - n) es)
  unfolding range_loop
  range_loop-numbered end_seq n [] all num = ap ok (take_nil (end_seq - n))
  range_loop-numbered end_seq n (e ∷ es) (he, all) (at, num) = elim (le-cases end_seq n) [
    | inl past ↦
        let none_left : end_seq - n ≡ 0 = omega arith in
        rw (seq_of_key-u64_key e.seq he.0, le→leb end_seq e.seq (omega arith), none_left)
    | inr before ↦
        let one_more : end_seq - n ≡ suc (end_seq - (n + 1)) = omega arith in
        rw (
          seq_of_key-u64_key e.seq he.0,
          leb_gt end_seq e.seq (omega arith),
          entry_of_value-encoded e he,
          range_loop-numbered end_seq (n + 1) es all num,
          one_more,
        )
  ]

  pub latest_loop-rows :
      (n found : ℕ) (es : List LogEntry)
      → All IsEntry es
      → found < n
      → latest_loop r m (map some (map log_row es)) n found ≡ ok (take (n - found) es)
  unfolding latest_loop
  latest_loop-rows n found [] all lt = ap ok (take_nil (n - found))
  latest_loop-rows n found (e ∷ es) (he, all) lt = elim (le-cases n (found + 1)) [
    | inl full ↦
        let last : n - found ≡ 1 = omega arith in
        rw (entry_of_value-encoded e he, le→leb n (found + 1) full, last)
    | inr room ↦
        let one_more : n - found ≡ suc (n - (found + 1)) = omega arith in
        rw (
          entry_of_value-encoded e he,
          leb_gt n (found + 1) room,
          latest_loop-rows n (found + 1) es all room,
          one_more,
        )
  ]
