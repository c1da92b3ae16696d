-- ===== src/Storage/TreeStore.antt =====
-- crates/settled-storage/src/tree_store.rs, from the state that the stores share. The cache, a `HashMap`, is a
-- function from levels and indices, and looking up what it does not have panics.
pub mod Numbers
pub mod Nodes
pub mod Complete
pub mod Stored
pub mod Rebuild
mod Examples
use settled.Prelude.{
  ℕ, zero, suc, ◌+◌, ◌-◌, ◌*◌, ◌/◌, ◌%◌, ◌^◌, List, [], ◌∷◌, ◌++◌, Option, none, some, Bool, ◌&&◌,
  ltb, ◌==◌, if◌then◌else◌, be_bytes, map, Run, done, panic, ◌>>=◌, unwrap,
}
use settled.Prelude.Results.{Result, ok, err, ok_or}
use settled.Prelude.Results as Results
use settled.Core.Hash.{Bytes, Hash, node_hash}
use settled.Storage.Types.{
  LogEntry, Error, rocks_db, to_array, corruption, tree_node_value_must_be_32_bytes,
}
use settled.Storage.Rocks.{Rocks, Prost, Put, cf_tree}
use settled.Storage.Rows.{Row, start}
use settled.Storage.LogStore.{DbInner, seq_range}

abbrev pub Cache : Type 0
Cache = ℕ → ℕ → Option Hash

-- `cache.insert((level, index), hash)`.
unfoldable pub insert : ℕ → ℕ → Hash → Cache → Cache
insert level index hash cache l i = if l == level && i == index then some hash else cache l i

module _ (sha256 : Bytes → Hash) where
  -- The `while` loop for the leaf `j`, from a level on: the cache, and the nodes it pushes. The level
  -- stops at 63, so 63 rounds are enough.
  unfoldable pub level_loop : ℕ → ℕ → ℕ → Cache → Run (Cache × List (ℕ × ℕ × Hash))
  level_loop zero j h cache = panic
  level_loop (suc f) j h cache =
      let idx = j / 2 ^ h in
      let more = (do
        left ← unwrap (cache (h - 1) (2 * idx))
        right ← unwrap (cache (h - 1) (2 * idx + 1))
        let parent = node_hash sha256 left right
        (cache', nodes) ← level_loop f j (h + 1) (insert h idx parent cache)
        done (cache', (h, idx, parent) ∷ nodes)) in
      if ltb h 63 && (j + 1) % 2 ^ 64 % 2 ^ h == 0 then more else done (cache, [])

  unfoldable pub leaves_loop : List (ℕ × Hash) → Cache → Run (List (ℕ × ℕ × Hash))
  leaves_loop [] cache = done []
  leaves_loop ((j, hash) ∷ leaves) cache = do
    (cache', nodes) ← level_loop 63 j 1 (insert 0 j hash cache)
    more ← leaves_loop leaves cache'
    done ((0, j, hash) ∷ nodes ++ more)

  unfoldable pub compute_nodes_from_leaves : List (ℕ × Hash) → Run (List (ℕ × ℕ × Hash))
  compute_nodes_from_leaves leaves = leaves_loop leaves (λ l i. none)

unfoldable pub tree_key : ℕ → ℕ → Bytes
tree_key level index = be_bytes 8 level ++ be_bytes 8 index

abbrev pub node_put : ℕ × ℕ × Hash → Put
node_put (level, index, hash) = record { cf = cf_tree; key = tree_key level index; value = hash }

module _ (r : Rocks) where
  unfoldable pub write_batch : r.Db → List (ℕ × ℕ × Hash) → Result Error r.Db
  write_batch db nodes = ok_or (r.write db (map node_put nodes)) rocks_db

  -- The `match` on the row.
  unfoldable pub found_node : Option Bytes → Result Error (Option Hash)
  found_node none = ok none
  found_node (some v) =
      Results.◌>>=◌ (ok_or (to_array 32 v) (corruption tree_node_value_must_be_32_bytes))
        (λ hash. ok (some hash))

  unfoldable pub get_node : r.Db → ℕ → ℕ → Result Error (Option Hash)
  get_node db level index =
      Results.◌>>=◌ (ok_or (r.get_cf db cf_tree (tree_key level index)) rocks_db) found_node

-- `filter_map(|r| r.ok().map(|(k, _)| k.to_vec()))`.
unfoldable pub keys_of : List (Option Row) → List Bytes
keys_of [] = []
keys_of (none ∷ items) = keys_of items
keys_of (some (k, v) ∷ items) = k ∷ keys_of items

module _ (r : Rocks) where
  -- The first block: the rows are deleted, if there are any.
  unfoldable pub cleared : r.Db → List Bytes → Result Error r.Db
  cleared db [] = ok db
  cleared db (k ∷ keys) = ok_or (r.delete db cf_tree (k ∷ keys)) rocks_db

module _ (r : Rocks) (m : Prost) (sha256 : Bytes → Hash) where
  -- From the entries on.
  unfoldable pub recomputed : r.Db → Result Error (List LogEntry) → Run (Result Error r.Db)
  recomputed db (err e) = done (err e)
  recomputed db (ok entries) = do
    nodes ← compute_nodes_from_leaves sha256 (map (λ e. (e.seq, e.leaf_hash)) entries)
    done (write_batch r db nodes)

  unfoldable pub rebuild_after : DbInner r m → Result Error r.Db → Run (Result Error r.Db)
  rebuild_after inner (err e) = done (err e)
  rebuild_after inner (ok db) =
      recomputed db (seq_range r m (record inner { db = db }) 0 (2 ^ 64 - 1))

  -- The database that it leaves.
  unfoldable pub rebuild_from_log : DbInner r m → Run (Result Error r.Db)
  rebuild_from_log inner =
      rebuild_after inner (cleared r inner.db (keys_of (r.iterator_cf inner.db cf_tree start)))
