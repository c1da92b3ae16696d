-- ===== src/Storage/LogStore/Batch.antt =====
-- `append_batch` of log_store.rs.
use settled.Prelude.{
  ℕ, suc, ◌+◌, ◌%◌, ◌^◌, ◌<◌, List, [], ◌∷◌, ◌++◌, append-nil, append_assoc, none, some, ◌≡◌, ◌⊎◌,
  inl, inr, refl, ap, sym, ◌∙◌, arith, Option-cases, length, length-append, map, All, All-append, ℤ,
  IsI64,
}
use native.Mathlib.Nat.{mod-eq_of_lt}
use mathlib.Core.List.{map-append}
use settled.Prelude.Results.{Result, ok, err, ◌>>=◌, ok_or}
use settled.Core.Hash.{Bytes, Hash, IsHash, leaf_hash}
use settled.Core.Split.{IsU64}
use settled.Storage.Types.{Error, LogEntry, rocks_db, log_entry_proto_from}
use settled.Storage.Rows.{u64_key, put_row}
use settled.Storage.Rocks.{Rocks, Prost, Put, put_all, cf_log}
use settled.Storage.LogStore.{DbInner, append_puts}
use settled.Storage.LogStore.Log.{IsEntry, IsNumbered, log_row, IsLog}
use settled.Storage.LogStore.Appends.{
  new_entry, puts_of, append_puts-ok, put_row-last, IsNumbered-append,
}

module _ (r : Rocks) (m : Prost) (sha256 : Bytes → Hash) where
  -- The loop over the entries: the batch, and the results.
  unfoldable pub batch_loop :
      ℤ → ℕ → ℕ → List (Bytes × Bytes) → Result Error (List Put × List (ℕ × ℤ × Hash))
  batch_loop timestamp_ns first_seq i [] = ok ([], [])
  batch_loop timestamp_ns first_seq i ((key, data_bytes) ∷ entries) =
      let more = batch_loop timestamp_ns first_seq (i + 1) entries in
      let seq = (first_seq + i) % 2 ^ 64 in
      do
        puts ← append_puts r m sha256 timestamp_ns seq key data_bytes
        (batch, results) ← more
        ok (puts ++ batch, (seq, timestamp_ns, leaf_hash sha256 data_bytes) ∷ results)

  unfoldable pub write_batch :
      r.Db → List Put × List (ℕ × ℤ × Hash) → Result Error (r.Db × List (ℕ × ℤ × Hash))
  write_batch db (batch, results) = do db' ← ok_or (r.write db batch) rocks_db; ok (db', results)

  unfoldable pub batch_appended :
      DbInner r m
      → ℕ
      → Result Error (r.Db × List (ℕ × ℤ × Hash))
      → Result Error (List (ℕ × ℤ × Hash)) × DbInner r m
  batch_appended inner n (ok (db', results)) =
      (ok results, record { db = db'; next_seq = (inner.next_seq + n) % 2 ^ 64 })
  batch_appended inner n (err e) =
      (err e, record { db = inner.db; next_seq = (inner.next_seq + n) % 2 ^ 64 })

  -- `append_batch`, with the clock's reading; the counter is raised before the writes.
  unfoldable pub append_batch :
      ℤ → DbInner r m → List (Bytes × Bytes) → Result Error (List (ℕ × ℤ × Hash)) × DbInner r m
  append_batch timestamp_ns inner [] = (ok [], inner)
  append_batch timestamp_ns inner (entry ∷ entries) =
      batch_appended inner (length (entry ∷ entries)) (do
        prepared ← batch_loop timestamp_ns inner.next_seq 0 (entry ∷ entries)
        write_batch inner.db prepared)

  abbrev pub new_entries : ℤ → ℕ → List (Bytes × Bytes) → List LogEntry
  new_entries t seq [] = []
  new_entries t seq ((key, data_bytes) ∷ entries) =
      new_entry r m sha256 t seq key data_bytes ∷ new_entries t (seq + 1) entries

  abbrev pub all_puts : List LogEntry → List Put
  all_puts [] = []
  all_puts (e ∷ es) = puts_of r m sha256 e ++ all_puts es

  abbrev pub result_of : LogEntry → ℕ × ℤ × Hash
  result_of e = (e.seq, e.timestamp_ns, e.leaf_hash)

  pub length-new_entries :
      (t : ℤ) (seq : ℕ) (entries : List (Bytes × Bytes))
      → length (new_entries t seq entries) ≡ length entries
  length-new_entries t seq [] = refl
  length-new_entries t seq (x ∷ entries) = ap suc (length-new_entries t (seq + 1) entries)

  batch_loop-ok :
      (t : ℤ) (first i : ℕ) (seq : ℕ) (entries : List (Bytes × Bytes))
      → seq ≡ first + i
      → seq + length entries < 2 ^ 64
      → batch_loop t first i entries
        ≡ ok (all_puts (new_entries t seq entries), map result_of (new_entries t seq entries))
  unfolding batch_loop
  batch_loop-ok t first i seq [] at few = refl
  batch_loop-ok t first i seq ((key, data_bytes) ∷ entries) at few =
      let here : (first + i) % 2 ^ 64 ≡ seq = mod-eq_of_lt (omega arith) ∙ sym at in
      rw (
        here,
        append_puts-ok r m sha256 t seq key data_bytes,
        batch_loop-ok t first (i + 1) (seq + 1) entries (omega arith) (omega arith),
      )

  put_all-new :
      (es : List LogEntry) (t : ℤ) (seq : ℕ) (entries : List (Bytes × Bytes))
      → seq ≡ length es
      → All IsEntry es
      → IsNumbered 0 es
      → ((d : Bytes) → IsHash (sha256 d))
      → IsI64 t
      → seq + length entries < 2 ^ 64
      → (put_all cf_log (all_puts (new_entries t seq entries)) (map (log_row r m) es)
          ≡ map (log_row r m) (es ++ new_entries t seq entries))
        × All IsEntry (es ++ new_entries t seq entries)
        × IsNumbered 0 (es ++ new_entries t seq entries)
  unfolding put_all leaf_hash
  put_all-new es t seq [] at all num hash ht few = rw (append-nil es) (refl, all, num)
  put_all-new es t seq ((key, data_bytes) ∷ entries) at all num hash ht few =
      let e0 = new_entry r m sha256 t seq key data_bytes in
      let fits : IsU64 seq = omega arith in
      let (rows, entries-ok, numbered) =
        put_all-new (es ++ e0 ∷ []) t (seq + 1) entries (omega (arith, length-append es (e0 ∷ [])))
          (All-append IsEntry es (e0 ∷ []) all ((fits, ht, hash (0x00 ∷ data_bytes)), tt))
          (IsNumbered-append 0 es e0 num (omega arith)) hash ht (omega arith) in
      let first : put_row (u64_key seq) (m.encoded (log_entry_proto_from e0)) (map (log_row r m) es)
          ≡ map (log_row r m) (es ++ e0 ∷ []) =
        put_row-last r m seq 0 (m.encoded (log_entry_proto_from e0)) es fits (omega arith) all num
        ∙ sym (map-append (log_row r m) es (e0 ∷ [])) in
      rw (← append_assoc es (e0 ∷ []) (new_entries t (seq + 1) entries), first)
        (rows, entries-ok, numbered)

  append_batch-written :
      (t : ℤ) (inner : DbInner r m) (entry : Bytes × Bytes) (entries : List (Bytes × Bytes))
      (db' : r.Db) (seq : ℕ)
      → inner.next_seq ≡ seq
      → seq + length (entry ∷ entries) < 2 ^ 64
      → r.write inner.db (all_puts (new_entries t seq (entry ∷ entries))) ≡ some db'
      → append_batch t inner (entry ∷ entries) ≡ (
        ok (map result_of (new_entries t seq (entry ∷ entries))),
        record { db = db'; next_seq = seq + length (entry ∷ entries) },
      )
  unfolding append_batch write_batch batch_appended
  append_batch-written t inner entry entries db' seq at few w =
      rw (at, batch_loop-ok t seq 0 seq (entry ∷ entries) (omega arith) few, w, mod-eq_of_lt few)

  append_batch-refused :
      (t : ℤ) (inner : DbInner r m) (entry : Bytes × Bytes) (entries : List (Bytes × Bytes))
      (seq : ℕ)
      → inner.next_seq ≡ seq
      → seq + length (entry ∷ entries) < 2 ^ 64
      → r.write inner.db (all_puts (new_entries t seq (entry ∷ entries))) ≡ none
      → append_batch t inner (entry ∷ entries)
        ≡ (err rocks_db, record { db = inner.db; next_seq = seq + length (entry ∷ entries) })
  unfolding append_batch write_batch batch_appended
  append_batch-refused t inner entry entries seq at few w =
      rw (at, batch_loop-ok t seq 0 seq (entry ∷ entries) (omega arith) few, w, mod-eq_of_lt few)

  -- The two ways in which a batch on a log can end.
  pub append_batch-outcome :
      (length_sha256 : (d : Bytes) → IsHash (sha256 d)) (t : ℤ) (inner : DbInner r m)
      (es : List LogEntry) (entry : Bytes × Bytes) (entries : List (Bytes × Bytes))
      → IsI64 t
      → IsLog r m inner es
      → length es + length (entry ∷ entries) < 2 ^ 64
      → ((r.write inner.db (all_puts (new_entries t (length es) (entry ∷ entries))) ≡ none)
          × (append_batch t inner (entry ∷ entries) ≡ (
            err rocks_db,
            record { db = inner.db; next_seq = length es + length (entry ∷ entries) },
          )))
        ⊎ ((db' : r.Db) × (r.write inner.db (all_puts (new_entries t (length es) (entry ∷ entries)))
              ≡ some db')
            × (append_batch t inner (entry ∷ entries) ≡ (
              ok (map result_of (new_entries t (length es) (entry ∷ entries))),
              record { db = db'; next_seq = length es + length (entry ∷ entries) },
            ))
            × IsLog r m
                (record { db = db'; next_seq = length es + length (entry ∷ entries) })
                (es ++ new_entries t (length es) (entry ∷ entries)))
  append_batch-outcome length_sha256 t inner es entry entries ht log few =
      let all = entry ∷ entries in
      let news = new_entries t (length es) all in
      let (rows, valid, numbered) =
        put_all-new es t (length es) all refl log.2 log.3 length_sha256 ht few in
      elim (Option-cases (r.write inner.db (all_puts news))) [
        | inl refused ↦
            inl (refused, append_batch-refused t inner entry entries (length es) log.4 few refused)
        | inr (db', w) ↦ inr (
          db',
          w,
          append_batch-written t inner entry entries db' (length es) log.4 few w,
          (
            r.write-IsReadable inner.db db' (all_puts news) w log.0,
            r.rows-write inner.db db' (all_puts news) w cf_log
                ∙ ap (put_all cf_log (all_puts news)) log.1
                ∙ rows,
            valid,
            numbered,
            omega (arith, length-append es news, length-new_entries t (length es) all),
            omega (arith, length-append es news, length-new_entries t (length es) all),
          ),
        )
      ]

  -- On a log with room for a batch of at least one entry, with a digest of 32 bytes and a clock of
  -- 64 bits, `append_batch` fails exactly by the database refusing the write, which leaves the rows
  -- as they were and the counter too high by the batch; or it returns the number, the time and the
  -- leaf hash of each entry in order, and the log has the entries at its end, numbered on from its
  -- length.
  pub append_batch-IsLog :
      (length_sha256 : (d : Bytes) → IsHash (sha256 d)) (t : ℤ) (inner : DbInner r m)
      (es : List LogEntry) (entry : Bytes × Bytes) (entries : List (Bytes × Bytes))
      → IsI64 t
      → IsLog r m inner es
      → length es + length (entry ∷ entries) < 2 ^ 64
      → ((r.write inner.db (all_puts (new_entries t (length es) (entry ∷ entries))) ≡ none)
          × (append_batch t inner (entry ∷ entries) ≡ (
            err rocks_db,
            record { db = inner.db; next_seq = length es + length (entry ∷ entries) },
          )))
        ⊎ ((inner' : DbInner r m) × (append_batch t inner (entry ∷ entries)
              ≡ (ok (map result_of (new_entries t (length es) (entry ∷ entries))), inner'))
            × IsLog r m inner' (es ++ new_entries t (length es) (entry ∷ entries)))
  append_batch-IsLog length_sha256 t inner es entry entries ht log few =
      elim (append_batch-outcome length_sha256 t inner es entry entries ht log few) [
        | inl refused ↦ inl refused
        | inr (db', w, result, log') ↦
            inr (record { db = db'; next_seq = length es + length (entry ∷ entries) }, result, log')
      ]
