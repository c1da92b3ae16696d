-- ===== src/Storage/Examples.antt =====
-- Tests of the storage on a database that is a function to rows, with an encoding that puts the
-- lengths first.
use settled.Prelude.{
  ℕ, zero, suc, ◌<◌, List, [], ◌∷◌, ◌++◌, Option, none, some, ◌≡◌, ◌≢◌, ◌⊎◌, refl, sym, ap, arith,
  length, take, drop, take-append_left, drop-append_left, ℤ, pos, negsuc, map, if◌then◌else◌,
}
use settled.Prelude.Results.{ok, err}
use settled.Core.Hash.{Bytes, leaf_hash}
use settled.Core.Examples.{toy, toy_length}
use settled.Storage.Types.{LogEntry, LogEntryProto, rocks_db}
use settled.Storage.Rows.{Rows, find_row, put_row, delete_rows, rows_in}
use settled.Storage.Rocks.{Rocks, Prost, ColumnFamily, put_all, same_family}
use settled.Storage.LogStore.{
  DbInner, append, get_seq_by_key, get_by_seq, seq_range, seq_range_paged, latest, count,
}
use settled.Storage.LogStore.Log.{IsLog}
use settled.Storage.LogStore.Appends.{append-IsLog, new_entry, puts_of, counted}
use settled.Storage.LogStore.Batch.{
  append_batch, append_batch-IsLog, all_puts, new_entries, result_of,
}
use settled.Storage.LogStore.Cursor.{bound}
use settled.Storage.LogStore.Pages.{seq_range_paged-seq_range}
use settled.Storage.LogStore.Reads.{reads-IsLog}

abbrev pub rows_of : ColumnFamily → Option (ColumnFamily → Rows) → Rows
rows_of c none = []
rows_of c (some db) = db c

abbrev pub table : Rocks
table = record {
  Db = ColumnFamily → Rows;
  get_cf = λ db c k. some (find_row k (db c));
  iterator_cf = λ db c mode. map some (rows_in mode (db c));
  write = λ db puts. some (λ c. put_all c puts (db c));
  delete = λ db f keys. some (λ c. if same_family f c then delete_rows keys (db c) else db c);
  rows = λ db c. db c;
  IsReadable = λ db. Unit;
  get_cf-IsReadable = λ db c k h. refl;
  iterator_cf-IsReadable = λ db c mode h. refl;
  rows-write = λ db db' puts w c. sym (ap (rows_of c) w);
  rows-delete = λ db db' f keys w c. sym (ap (rows_of c) w);
  delete-IsReadable = λ db db' f keys w h. tt;
  write-IsReadable = λ db db' puts w h. tt;
}

abbrev pub sign_of : ℤ → ℕ
sign_of (pos n) = 0
sign_of (negsuc n) = 1

abbrev pub size_of : ℤ → ℕ
size_of (pos n) = n
size_of (negsuc n) = n

abbrev pub integer : ℕ → ℕ → ℤ
integer zero n = pos n
integer (suc s) n = negsuc n

abbrev pub encoded : LogEntryProto → Bytes
encoded p =
    p.seq
      ∷ sign_of p.timestamp_ns
      ∷ size_of p.timestamp_ns
      ∷ length p.key
      ∷ length p.data_bytes
      ∷ p.key
    ++ (p.data_bytes ++ p.leaf_hash)

abbrev pub decode : Bytes → Option LogEntryProto
decode (seq ∷ s ∷ t ∷ k ∷ d ∷ rest) = some (record {
  seq = seq;
  timestamp_ns = integer s t;
  key = take k rest;
  data_bytes = take d (drop k rest);
  leaf_hash = drop d (drop k rest);
})
decode bs = none

pub integer-sign_of : (t : ℤ) → integer (sign_of t) (size_of t) ≡ t
integer-sign_of (pos n) = refl
integer-sign_of (negsuc n) = refl

pub decode-encoded : (p : LogEntryProto) → decode (encoded p) ≡ some p
decode-encoded p = rw (
  integer-sign_of p.timestamp_ns,
  take-append_left p.key (p.data_bytes ++ p.leaf_hash) (length p.key) refl,
  drop-append_left p.key (p.data_bytes ++ p.leaf_hash) (length p.key) refl,
  take-append_left p.data_bytes p.leaf_hash (length p.data_bytes) refl,
  drop-append_left p.data_bytes p.leaf_hash (length p.data_bytes) refl,
)

abbrev pub lengths_first : Prost
lengths_first = record {
  encode = λ p. some (encoded p);
  decode = decode;
  encoded = encoded;
  encode-encoded = λ p. refl;
  decode-encoded = λ p s t. decode-encoded p;
}

abbrev pub empty : DbInner table lengths_first
empty = record { db = λ c. []; next_seq = 0 }

empty-IsLog : IsLog table lengths_first empty []
empty-IsLog = (tt, refl, tt, tt, refl, omega arith)

abbrev pub entry : LogEntry
entry = new_entry table lengths_first toy (pos 5) 0 (1 ∷ []) (2 ∷ 3 ∷ [])

abbrev pub one : DbInner table lengths_first
one = record { db = λ c. put_all c (puts_of table lengths_first toy entry) []; next_seq = 1 }

pub one-IsLog : IsLog table lengths_first one (entry ∷ [])
unfolding put_all put_row leaf_hash
one-IsLog = (
  tt,
  refl,
  ((omega arith, omega arith, toy_length (0 ∷ 2 ∷ 3 ∷ [])), tt),
  (refl, tt),
  refl,
  omega arith,
)

append-IsLog_example :
    ((table.write empty.db (puts_of table lengths_first toy entry) ≡ none)
      × (append table lengths_first toy (pos 5) empty (1 ∷ []) (2 ∷ 3 ∷ [])
          ≡ (err rocks_db, counted table lengths_first toy empty.db 0)))
    ⊎ ((inner' : DbInner table lengths_first) × (append table lengths_first toy
            (pos 5)
            empty
            (1 ∷ [])
            (2 ∷ 3 ∷ [])
          ≡ (ok (0, pos 5), inner'))
        × IsLog table lengths_first inner' (entry ∷ [])
        × (get_seq_by_key table lengths_first inner' (1 ∷ []) ≡ ok (some 0))
        × ((k : Bytes)
            → k ≢ (1 ∷ [])
            → get_seq_by_key table lengths_first inner' k
              ≡ get_seq_by_key table lengths_first empty k))
append-IsLog_example =
    append-IsLog table lengths_first toy toy_length (pos 5) empty [] (1 ∷ []) (2 ∷ 3 ∷ [])
      (omega arith) empty-IsLog (omega arith)

reads-IsLog_example :
    (get_by_seq table lengths_first one 0 ≡ ok (some entry))
    × (seq_range table lengths_first one 0 9 ≡ ok (entry ∷ []))
    × (latest table lengths_first one 4 ≡ ok (entry ∷ []))
    × (count table lengths_first one ≡ 1)
reads-IsLog_example = reads-IsLog table lengths_first one (entry ∷ []) 0 9 4 one-IsLog (omega arith)

seq_range_paged-seq_range_example :
    (page : List LogEntry) × (rest : List LogEntry) × (cursor : ℕ) × (seq_range_paged table
        lengths_first one 0 0 2
      ≡ ok (page, cursor))
    × (seq_range table lengths_first one 0 (bound 0) ≡ ok (page ++ rest))
    × (((cursor ≡ 0) × (rest ≡ []))
        ⊎ ((length page ≡ 2)
            × (0 < cursor)
            × (seq_range table lengths_first one cursor (bound 0) ≡ ok rest)))
seq_range_paged-seq_range_example =
    seq_range_paged-seq_range table lengths_first one (entry ∷ []) 0 0 2 one-IsLog (omega arith)
      (omega arith)

append_batch-IsLog_example :
    ((table.write one.db (
          all_puts table lengths_first toy (
            new_entries table lengths_first toy
              (pos 6)
              1
              ((7 ∷ [], 8 ∷ []) ∷ (7 ∷ [], 9 ∷ []) ∷ [])))
        ≡ none)
      × (append_batch table lengths_first toy (pos 6) one ((7 ∷ [], 8 ∷ []) ∷ (7 ∷ [], 9 ∷ []) ∷ [])
          ≡ (err rocks_db, record { db = one.db; next_seq = 3 })))
    ⊎ ((inner' : DbInner table lengths_first) × (append_batch table lengths_first toy
            (pos 6)
            one
            ((7 ∷ [], 8 ∷ []) ∷ (7 ∷ [], 9 ∷ []) ∷ [])
          ≡ (
            ok (
                map (result_of table lengths_first toy) (
                  new_entries table lengths_first toy
                    (pos 6)
                    1
                    ((7 ∷ [], 8 ∷ []) ∷ (7 ∷ [], 9 ∷ []) ∷ []))),
            inner',
          ))
        × IsLog table lengths_first inner' (
            entry
            ∷ new_entries table lengths_first toy
                (pos 6)
                1
                ((7 ∷ [], 8 ∷ []) ∷ (7 ∷ [], 9 ∷ []) ∷ [])))
append_batch-IsLog_example =
    append_batch-IsLog table lengths_first toy toy_length (pos 6) one (entry ∷ []) (7 ∷ [], 8 ∷ [])
      ((7 ∷ [], 9 ∷ []) ∷ []) (omega arith) one-IsLog (omega arith)
