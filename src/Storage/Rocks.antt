-- ===== src/Storage/Rocks.antt =====
-- What the storage relies on of the rocksdb and prost crates: two interfaces, with their documented
-- behaviour. `none` is an error of the crate.
use settled.Prelude.{ℕ, List, [], ◌∷◌, Option, some, Bool, ◌≡◌, map, IsI64, ◌==◌, if◌then◌else◌}
use settled.Core.Hash.{Bytes}
use settled.Core.Split.{IsU64}
use settled.Storage.Types.{LogEntryProto}
use settled.Storage.Rows.{Row, Rows, find_row, put_row, delete_rows, IteratorMode, rows_in}

-- The column families of crates/settled-storage/src/db.rs.
pub data ColumnFamily : Type 0 where
  cf_default cf_log cf_tree cf_heads cf_index cf_keys : ColumnFamily

abbrev pub same_family : ColumnFamily → ColumnFamily → Bool
same_family c d = number c == number d
  where
    number : ColumnFamily → ℕ
    number cf_default = 0
    number cf_log = 1
    number cf_tree = 2
    number cf_heads = 3
    number cf_index = 4
    number cf_keys = 5

-- A `WriteBatch` of `put_cf`, in the order of the calls.
pub record Put : Type 0 where
  pub cf : ColumnFamily
  pub key : Bytes
  pub value : Bytes

-- What a batch does to the rows of a column family.
unfoldable pub put_all : ColumnFamily → List Put → Rows → Rows
put_all c [] rows = rows
put_all c (p ∷ puts) rows =
    put_all c puts (if same_family p.cf c then put_row p.key p.value rows else rows)

pub record Rocks : Type 1 where
  pub Db : Type 0
  pub get_cf : Db → ColumnFamily → Bytes → Option (Option Bytes)
  pub iterator_cf : Db → ColumnFamily → IteratorMode → List (Option Row)
  pub write : Db → List Put → Option Db
  -- `write` of a batch of `delete_cf` in one column family.
  pub delete : Db → ColumnFamily → List Bytes → Option Db
  -- The rows a database holds, and that its files can be read.
  pub rows : Db → ColumnFamily → Rows
  pub IsReadable : Db → Type 0
  pub get_cf-IsReadable :
      (db : Db) (c : ColumnFamily) (k : Bytes)
      → IsReadable db
      → get_cf db c k ≡ some (find_row k (rows db c))
  pub iterator_cf-IsReadable :
      (db : Db) (c : ColumnFamily) (mode : IteratorMode)
      → IsReadable db
      → iterator_cf db c mode ≡ map some (rows_in mode (rows db c))
  pub rows-write :
      (db db' : Db) (puts : List Put)
      → write db puts ≡ some db'
      → (c : ColumnFamily) → rows db' c ≡ put_all c puts (rows db c)
  pub rows-delete :
      (db db' : Db) (f : ColumnFamily) (keys : List Bytes)
      → delete db f keys ≡ some db'
      → (c : ColumnFamily)
      → rows db' c ≡ (if same_family f c then delete_rows keys (rows db c) else rows db c)
  pub delete-IsReadable :
      (db db' : Db) (f : ColumnFamily) (keys : List Bytes)
      → delete db f keys ≡ some db'
      → IsReadable db
      → IsReadable db'
  pub write-IsReadable :
      (db db' : Db) (puts : List Put) → write db puts ≡ some db' → IsReadable db → IsReadable db'

-- `encode` into a vector and `decode` of the stored log entries.
pub record Prost : Type 1 where
  pub encode : LogEntryProto → Option Bytes
  pub decode : Bytes → Option LogEntryProto
  pub encoded : LogEntryProto → Bytes
  -- A vector has the room that `encode` needs, and what it wrote is read back.
  pub encode-encoded : (p : LogEntryProto) → encode p ≡ some (encoded p)
  pub decode-encoded :
      (p : LogEntryProto) → IsU64 p.seq → IsI64 p.timestamp_ns → decode (encoded p) ≡ some p
