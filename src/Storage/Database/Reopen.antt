-- ===== src/Storage/Database/Reopen.antt =====
-- A database that holds a log opens as that log.
use settled.Prelude.{
  ℕ, ◌+◌, ◌%◌, ◌^◌, ◌≤◌, ◌<◌, List, [], ◌∷◌, ◌++◌, some, ◌≡◌, ◌⊎◌, inl, inr, refl, ap, ◌∙◌, arith,
  length, map, All, le-cases, lt→ltb, ltb_ge, ==_iff, be_bytes, from_be_bytes,
  from_be_bytes-be_bytes,
}
use native.Mathlib.Nat.{mod-eq_of_lt}
use mathlib.Core.List.{reverse, reverse-cons}
use settled.Prelude.Results.{ok, err}
use settled.Core.Split.{IsU64}
use settled.Storage.Types.{LogEntry, schema_mismatch}
use settled.Storage.Rows.{find_row, u64_key}
use settled.Storage.Rows.BigEndian.{length-u64_key, from_be_bytes-u64_key}
use settled.Storage.Rocks.{Rocks, Prost, cf_default, cf_log}
use settled.Storage.LogStore.{DbInner}
use settled.Storage.LogStore.Log.{IsEntry, IsNumbered, log_row, IsLog}
use settled.Storage.LogStore.Reads.{scan_back}
use settled.Storage.Database.{schema_version_key, check_schema, seq_after, open_db}

reverse-last :
    (n : ℕ) (es : List LogEntry)
    → IsNumbered n es
    → All IsEntry es
    → 0 < length es
    → (e : LogEntry) × (rest : List LogEntry) × (reverse es ≡ e ∷ rest)
      × (e.seq + 1 ≡ n + length es)
      × IsU64 e.seq
reverse-last n [] num all h = absurd (omega arith)
reverse-last n (x ∷ []) (at, num) (hx, all) h = (x, [], refl, omega arith, hx.0)
reverse-last n (x ∷ y ∷ es) (at, num) (hx, all) h =
    let (e, rest, shape, last, he) = reverse-last (n + 1) (y ∷ es) num all (omega arith) in
    (
      e,
      rest ++ x ∷ [],
      reverse-cons x (y ∷ es) ∙ ap (λ (zs : List LogEntry). zs ++ x ∷ []) shape,
      omega (arith, last),
      he,
    )

module _ (r : Rocks) (m : Prost) where
  seq_after-rows :
      (es : List LogEntry)
      → IsNumbered 0 es
      → All IsEntry es
      → length es < 2 ^ 64
      → seq_after r m (map some (map (log_row r m) (reverse es))) ≡ ok (length es)
  unfolding seq_after
  seq_after-rows [] num all few = refl
  seq_after-rows (x ∷ es) num all few =
      let (e, rest, shape, last, he) = reverse-last 0 (x ∷ es) num all (omega arith) in
      let next : (e.seq + 1) % 2 ^ 64 ≡ length (x ∷ es) =
        mod-eq_of_lt (omega (arith, last)) ∙ omega (arith, last) in
      rw (
        shape,
        (==_iff (length (u64_key e.seq)) 8).1 (length-u64_key e.seq),
        from_be_bytes-u64_key e.seq he,
        next,
      )

  check_schema-version :
      (db : r.Db) (version : ℕ)
      → version < 2 ^ 32
      → ((version ≤ 1) × (check_schema r m db (some (be_bytes 4 version)) ≡ ok db))
        ⊎ ((1 < version)
            × (check_schema r m db (some (be_bytes 4 version)) ≡ err (schema_mismatch version 1)))
  unfolding check_schema
  check_schema-version db version h =
      let stored : from_be_bytes 0 (be_bytes 4 version) ≡ version =
        from_be_bytes-be_bytes 4 version h in
      elim (le-cases version 1) [
        | inl old ↦ inl (old, rw (stored, ltb_ge 1 version old))
        | inr new ↦ inr (new, rw (stored, lt→ltb 1 version new))
      ]

  abbrev pub opened : r.Db → List LogEntry → DbInner r m
  opened db es = record { db = db; next_seq = length es }

  -- The two ways in which a stored log opens.
  pub open_db-opened :
      (db : r.Db) (es : List LogEntry) (version : ℕ)
      → r.IsReadable db
      → r.rows db cf_log ≡ map (log_row r m) es
      → All IsEntry es
      → IsNumbered 0 es
      → length es < 2 ^ 64
      → version < 2 ^ 32
      → find_row schema_version_key (r.rows db cf_default) ≡ some (be_bytes 4 version)
      → ((version ≤ 1) × (open_db r m db ≡ ok (opened db es)) × IsLog r m (opened db es) es)
        ⊎ ((1 < version) × (open_db r m db ≡ err (schema_mismatch version 1)))
  unfolding open_db
  open_db-opened db es version readable rows entries numbered few h schema =
      let log : IsLog r m (opened db es) es = (readable, rows, entries, numbered, refl, few) in
      let found = r.get_cf-IsReadable db cf_default schema_version_key readable in
      elim (check_schema-version db version h) [
        | inl (old, passes) ↦ inl (
          old,
          rw (
            found,
            schema,
            passes,
            scan_back r m (opened db es) es log,
            seq_after-rows es numbered entries few,
          ),
          log,
        )
        | inr (new, fails) ↦ inr (new, rw (found, schema, fails))
      ]

  -- A readable database whose log rows are those of entries numbered from 0, and which has a schema
  -- version: of version 0 or 1 it opens as the log of these entries, with the counter at their
  -- number; of a larger one `open_db` fails with the two versions.
  pub open_db-IsLog :
      (db : r.Db) (es : List LogEntry) (version : ℕ)
      → r.IsReadable db
      → r.rows db cf_log ≡ map (log_row r m) es
      → All IsEntry es
      → IsNumbered 0 es
      → length es < 2 ^ 64
      → version < 2 ^ 32
      → find_row schema_version_key (r.rows db cf_default) ≡ some (be_bytes 4 version)
      → ((version ≤ 1) × ((inner : DbInner r m) × (open_db r m db ≡ ok inner) × IsLog r m inner es))
        ⊎ ((1 < version) × (open_db r m db ≡ err (schema_mismatch version 1)))
  open_db-IsLog db es version readable rows entries numbered few h schema =
      elim (open_db-opened db es version readable rows entries numbered few h schema) [
        | inl (old, result, log) ↦ inl (old, (opened db es, result, log))
        | inr fails ↦ inr fails
      ]
