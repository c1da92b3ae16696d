-- ===== src/Storage/Database.antt =====
-- crates/settled-storage/src/db.rs: `Db::open`, here `open_db`, from the database that RocksDB opened.
pub mod Reopen
mod Examples
use settled.Prelude.{
  ℕ, ◌+◌, ◌%◌, ◌^◌, List, [], ◌∷◌, Option, none, some, ltb, if◌then◌else◌, be_bytes, from_be_bytes,
}
use settled.Prelude.Results.{Result, ok, err, ◌>>=◌, ok_or}
use settled.Core.Hash.{Bytes}
use settled.Storage.Types.{
  Error, rocks_db, corruption, bad_seq_key_length, bad_schema_version_length, schema_mismatch,
  to_array,
}
use settled.Storage.Rows.{Row, end}
use settled.Storage.Rocks.{Rocks, Prost, Put, cf_default, cf_log}
use settled.Storage.LogStore.{DbInner}

-- b"schema_version".
abbrev pub schema_version_key : Bytes
schema_version_key =
    115 ∷ 99 ∷ 104 ∷ 101 ∷ 109 ∷ 97 ∷ 95 ∷ 118 ∷ 101 ∷ 114 ∷ 115 ∷ 105 ∷ 111 ∷ 110 ∷ []

abbrev pub current_schema_version : ℕ
current_schema_version = 1

module _ (r : Rocks) (m : Prost) where
  -- The `match` on the stored schema version.
  unfoldable pub check_schema : r.Db → Option Bytes → Result Error r.Db
  check_schema db none =
      ok_or
        (r.write db (
          record {
            cf = cf_default;
            key = schema_version_key;
            value = be_bytes 4 current_schema_version;
          }
          ∷ []))
        rocks_db
  check_schema db (some v) = do
    bytes ← ok_or (to_array 4 v) (corruption bad_schema_version_length)
    let version = from_be_bytes 0 bytes
    if ltb current_schema_version version
        then err (schema_mismatch version current_schema_version)
        else ok db

  -- The number after the last key of the log.
  unfoldable pub seq_after : List (Option Row) → Result Error ℕ
  seq_after [] = ok 0
  seq_after (none ∷ items) = err rocks_db
  seq_after (some (k, v) ∷ items) = do
    bytes ← ok_or (to_array 8 k) (corruption bad_seq_key_length)
    ok ((from_be_bytes 0 bytes + 1) % 2 ^ 64)

  unfoldable pub open_db : r.Db → Result Error (DbInner r m)
  open_db db = do
    found ← ok_or (r.get_cf db cf_default schema_version_key) rocks_db
    checked ← check_schema db found
    next_seq ← seq_after (r.iterator_cf checked cf_log end)
    ok (record { db = checked; next_seq = next_seq })
