-- ===== src/Storage/Database/Examples.antt =====
-- Tests of opening a database.
use settled.Prelude.{◌≤◌, ◌<◌, [], ◌∷◌, ◌≡◌, ◌⊎◌, refl, arith, be_bytes}
use settled.Prelude.Results.{ok, err}
use settled.Core.Hash.{bytes_eq}
use settled.Core.Examples.{toy}
use settled.Storage.Types.{schema_mismatch}
use settled.Storage.Rows.{put_row, find_row}
use settled.Storage.Rocks.{cf_default, put_all}
use settled.Storage.LogStore.{DbInner}
use settled.Storage.LogStore.Log.{IsLog}
use settled.Storage.LogStore.Appends.{puts_of}
use settled.Storage.Examples.{table, lengths_first, entry, one-IsLog}
use settled.Storage.Database.{schema_version_key, open_db}
use settled.Storage.Database.Reopen.{open_db-IsLog}

abbrev stored : table.Db
stored = λ c.
    put_all c
      (record { cf = cf_default; key = schema_version_key; value = be_bytes 4 1 }
        ∷ puts_of table lengths_first toy entry)
      []

open_db-IsLog_example :
    ((1 ≤ 1)
      × ((inner : DbInner table lengths_first) × (open_db table lengths_first stored ≡ ok inner)
          × IsLog table lengths_first inner (entry ∷ [])))
    ⊎ ((1 < 1) × (open_db table lengths_first stored ≡ err (schema_mismatch 1 1)))
unfolding put_all put_row find_row bytes_eq
open_db-IsLog_example =
    open_db-IsLog table lengths_first stored (entry ∷ []) 1 tt refl one-IsLog.2 (refl, tt)
      (omega arith) (omega arith) refl
