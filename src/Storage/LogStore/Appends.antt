-- ===== src/Storage/LogStore/Appends.antt =====
-- What `append` of log_store.rs does to a log.
use settled.Prelude.{
  ℕ, ◌+◌, ◌^◌, ◌<◌, List, [], ◌∷◌, ◌++◌, none, some, ◌≡◌, ◌≢◌, ◌⊎◌, inl, inr, refl, ap, sym, ◌∙◌,
  arith, Option-cases, length, length-append, map, All, All-append, ℤ, IsI64, ltb_ge, ==_iff,
}
use native.Mathlib.Nat.{mod-eq_of_lt}
use mathlib.Core.List.{map-append}
use settled.Prelude.Results.{ok, err}
use settled.Core.Hash.{Bytes, Hash, IsHash, leaf_hash}
use settled.Core.Split.{IsU64}
use settled.Storage.Types.{LogEntry, rocks_db, log_entry_proto_from}
use settled.Storage.Rows.{u64_key, put_row}
use settled.Storage.Rows.BigEndian.{lex_lt-u64_key, length-u64_key, from_be_bytes-u64_key}
use settled.Storage.Rows.Put.{find_row-put_row, find_row-put_row_other, bytes_eq_ne}
use settled.Storage.Rocks.{Rocks, Prost, Put, put_all, cf_log, cf_index}
use settled.Storage.LogStore.{DbInner, append, appended, append_puts, get_seq_by_key, found_seq}
use settled.Storage.LogStore.Log.{IsEntry, IsNumbered, log_row, IsLog}
use settled.Storage.LogStore.Reads.{u64_key_injective}

pub IsNumbered-append :
    (n : ℕ) (es : List LogEntry) (e : LogEntry)
    → IsNumbered n es
    → e.seq ≡ n + length es
    → IsNumbered n (es ++ e ∷ [])
IsNumbered-append n [] e num at = (omega arith, tt)
IsNumbered-append n (x ∷ es) e (here, num) at =
    (here, IsNumbered-append (n + 1) es e num (omega arith))

module _ (r : Rocks) (m : Prost) where
  -- A row whose key is the next number comes last.
  pub put_row-last :
      (k n : ℕ) (v : Bytes) (es : List LogEntry)
      → IsU64 k
      → k ≡ n + length es
      → All IsEntry es
      → IsNumbered n es
      → put_row (u64_key k) v (map (log_row r m) es) ≡ map (log_row r m) es ++ (u64_key k, v) ∷ []
  unfolding put_row
  put_row-last k n v [] hk at all num = refl
  put_row-last k n v (e ∷ es) hk at (he, all) (here, num) =
      let differ : e.seq ≢ k = (λ same. omega arith) in
      rw (
        lex_lt-u64_key k e.seq hk he.0,
        ltb_ge k e.seq (omega arith),
        bytes_eq_ne (u64_key e.seq) (u64_key k)
            (λ same. differ (u64_key_injective e.seq k he.0 hk same)),
        put_row-last k (n + 1) v es hk (omega arith) all num,
      )

  found_seq-u64_key : (n : ℕ) → IsU64 n → found_seq r m (some (u64_key n)) ≡ ok (some n)
  unfolding found_seq
  found_seq-u64_key n h =
      rw ((==_iff (length (u64_key n)) 8).1 (length-u64_key n), from_be_bytes-u64_key n h)

  module _ (sha256 : Bytes → Hash) where
    abbrev pub new_entry : ℤ → ℕ → Bytes → Bytes → LogEntry
    new_entry timestamp_ns seq key data_bytes = record {
      seq = seq;
      timestamp_ns = timestamp_ns;
      key = key;
      data_bytes = data_bytes;
      leaf_hash = leaf_hash sha256 data_bytes;
    }

    abbrev pub puts_of : LogEntry → List Put
    puts_of e =
        record { cf = cf_log; key = u64_key e.seq; value = m.encoded (log_entry_proto_from e) }
        ∷ record { cf = cf_index; key = e.key; value = u64_key e.seq }
        ∷ []

    pub append_puts-ok :
        (t : ℤ) (seq : ℕ) (key data_bytes : Bytes)
        → append_puts r m sha256 t seq key data_bytes
          ≡ ok (puts_of (new_entry t seq key data_bytes))
    unfolding append_puts log_entry_proto_from
    append_puts-ok t seq key data_bytes =
        rw (m.encode-encoded (log_entry_proto_from (new_entry t seq key data_bytes)))

    abbrev pub counted : r.Db → ℕ → DbInner r m
    counted db' seq = record { db = db'; next_seq = seq + 1 }

    pub append-written :
        (t : ℤ) (inner : DbInner r m) (key data_bytes : Bytes) (db' : r.Db) (seq : ℕ)
        → inner.next_seq ≡ seq
        → seq + 1 < 2 ^ 64
        → r.write inner.db (puts_of (new_entry t seq key data_bytes)) ≡ some db'
        → append r m sha256 t inner key data_bytes ≡ (ok (seq, t), counted db' seq)
    unfolding append appended
    append-written t inner key data_bytes db' seq at few w =
        rw (at, append_puts-ok t seq key data_bytes, w, mod-eq_of_lt few)

    pub append-refused :
        (t : ℤ) (inner : DbInner r m) (key data_bytes : Bytes) (seq : ℕ)
        → inner.next_seq ≡ seq
        → seq + 1 < 2 ^ 64
        → r.write inner.db (puts_of (new_entry t seq key data_bytes)) ≡ none
        → append r m sha256 t inner key data_bytes ≡ (err rocks_db, counted inner.db seq)
    unfolding append appended
    append-refused t inner key data_bytes seq at few w =
        rw (at, append_puts-ok t seq key data_bytes, w, mod-eq_of_lt few)

    rows-after :
        (inner : DbInner r m) (es : List LogEntry) (e : LogEntry) (db' : r.Db)
        → IsLog r m inner es
        → e.seq ≡ length es
        → r.write inner.db (puts_of e) ≡ some db'
        → r.rows db' cf_log ≡ map (log_row r m) (es ++ e ∷ [])
    unfolding put_all
    rows-after inner es e db' log at w =
        r.rows-write inner.db db' (puts_of e) w cf_log
        ∙ ap (put_row (u64_key e.seq) (m.encoded (log_entry_proto_from e))) log.1
        ∙ put_row-last e.seq 0 (m.encoded (log_entry_proto_from e)) es (omega (arith, log.5))
            (omega (arith)) log.2 log.3
        ∙ sym (map-append (log_row r m) es (e ∷ []))

    get_seq_by_key-after :
        (inner : DbInner r m) (e : LogEntry) (db' : r.Db) (n : ℕ) (k : Bytes)
        → r.IsReadable inner.db
        → IsU64 e.seq
        → r.write inner.db (puts_of e) ≡ some db'
        → (k ≡ e.key → get_seq_by_key r m (record { db = db'; next_seq = n }) k ≡ ok (some e.seq))
          × (k ≢ e.key
              → get_seq_by_key r m (record { db = db'; next_seq = n }) k
                ≡ get_seq_by_key r m inner k)
    unfolding get_seq_by_key put_all
    get_seq_by_key-after inner e db' n k readable h w =
        let after : r.IsReadable db' = r.write-IsReadable inner.db db' (puts_of e) w readable in
        let written = r.rows-write inner.db db' (puts_of e) w cf_index in
        (
          λ same.
              rw
                (
                  r.get_cf-IsReadable db' cf_index k after,
                  written,
                  same,
                  find_row-put_row e.key (u64_key e.seq) (r.rows inner.db cf_index),
                )
                (found_seq-u64_key e.seq h),
          λ other. rw (
            r.get_cf-IsReadable db' cf_index k after,
            written,
            r.get_cf-IsReadable inner.db cf_index k readable,
            find_row-put_row_other e.key (u64_key e.seq) k (r.rows inner.db cf_index)
                (λ q. other (sym q)),
          ),
        )

    -- The two ways in which `append` on a log can end.
    pub append-outcome :
        (length_sha256 : (d : Bytes) → IsHash (sha256 d)) (t : ℤ) (inner : DbInner r m)
        (es : List LogEntry) (key data_bytes : Bytes)
        → IsI64 t
        → IsLog r m inner es
        → length es + 1 < 2 ^ 64
        → ((r.write inner.db (puts_of (new_entry t (length es) key data_bytes)) ≡ none)
            × (append r m sha256 t inner key data_bytes
                ≡ (err rocks_db, counted inner.db (length es))))
          ⊎ ((db' : r.Db) × (r.write inner.db (puts_of (new_entry t (length es) key data_bytes))
                ≡ some db')
              × (append r m sha256 t inner key data_bytes
                  ≡ (ok (length es, t), counted db' (length es)))
              × IsLog r m
                  (counted db' (length es))
                  (es ++ new_entry t (length es) key data_bytes ∷ []))
    unfolding leaf_hash
    append-outcome length_sha256 t inner es key data_bytes ht log few =
        let e = new_entry t (length es) key data_bytes in
        let fits : IsU64 (length es) = log.5 in
        elim (Option-cases (r.write inner.db (puts_of e))) [
          | inl refused ↦
              inl (refused, append-refused t inner key data_bytes (length es) log.4 few refused)
          | inr (db', w) ↦ inr (
            db',
            w,
            append-written t inner key data_bytes db' (length es) log.4 few w,
            (
              r.write-IsReadable inner.db db' (puts_of e) w log.0,
              rows-after inner es e db' log refl w,
              All-append IsEntry es (e ∷ []) log.2
                  ((fits, ht, length_sha256 (0x00 ∷ data_bytes)), tt),
              IsNumbered-append 0 es e log.3 (omega arith),
              omega (arith, length-append es (e ∷ [])),
              omega (arith, length-append es (e ∷ [])),
            ),
          )
        ]

    -- On a log of fewer than 2^64 - 1 entries, with a digest of 32 bytes and a clock of 64 bits,
    -- `append` fails exactly by the database refusing the write, which leaves the rows as they were
    -- and the counter one too high; or it returns the number of entries, the log has the new entry
    -- at its end, the new key's lookup gives that number, and no other key's lookup changes.
    pub append-IsLog :
        (length_sha256 : (d : Bytes) → IsHash (sha256 d)) (t : ℤ) (inner : DbInner r m)
        (es : List LogEntry) (key data_bytes : Bytes)
        → IsI64 t
        → IsLog r m inner es
        → length es + 1 < 2 ^ 64
        → ((r.write inner.db (puts_of (new_entry t (length es) key data_bytes)) ≡ none)
            × (append r m sha256 t inner key data_bytes
                ≡ (err rocks_db, counted inner.db (length es))))
          ⊎ ((inner' : DbInner r m) × (append r m sha256 t inner key data_bytes
                ≡ (ok (length es, t), inner'))
              × IsLog r m inner' (es ++ new_entry t (length es) key data_bytes ∷ [])
              × (get_seq_by_key r m inner' key ≡ ok (some (length es)))
              × ((k : Bytes) → k ≢ key → get_seq_by_key r m inner' k ≡ get_seq_by_key r m inner k))
    append-IsLog length_sha256 t inner es key data_bytes ht log few =
        let e = new_entry t (length es) key data_bytes in
        let fits : IsU64 (length es) = log.5 in
        elim (append-outcome length_sha256 t inner es key data_bytes ht log few) [
          | inl refused ↦ inl refused
          | inr (db', w, result, log') ↦ inr (
            counted db' (length es),
            result,
            log',
            (get_seq_by_key-after inner e db' (length es + 1) key log.0 fits w).0 refl,
            λ k. (get_seq_by_key-after inner e db' (length es + 1) k log.0 fits w).1,
          )
        ]
