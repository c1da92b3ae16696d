-- ===== src/Storage/TreeStore/Rebuild.antt =====
-- `rebuild_from_log` leaves the nodes of the log's tree, and no others.
use settled.Prelude.{
  ℕ, ◌+◌, ◌-◌, ◌*◌, ◌^◌, ◌≤◌, ◌<◌, List, [], ◌∷◌, ◌++◌, append_assoc, none, some, true, ◌≡◌, ◌≢◌,
  ◌⊎◌, inl, inr, refl, ap, sym, ◌∙◌, arith, length, take_all, map, All, done, Bool-cases,
  Option-cases, two_pow_pos,
}
use settled.Prelude.Results.{ok, err}
use mathlib.Core.List.{Memᴰ}
use settled.Core.Hash.{Bytes, Hash, IsHash, bytes_eq}
use settled.Core.Hash.Collisions.{bytes_eq_refl}
use settled.Core.Split.{IsU64}
use settled.Storage.Types.{LogEntry, rocks_db}
use settled.Storage.Rows.{Row, Rows, find_row, put_row, has_key, delete_rows, rows_in, start}
use settled.Storage.Rows.Put.{find_row-put_row_other}
use settled.Storage.Rocks.{Rocks, Prost, put_all, cf_tree, cf_log}
use settled.Storage.LogStore.{DbInner, seq_range}
use settled.Storage.LogStore.Log.{IsEntry, IsNumbered, IsLog}
use settled.Storage.LogStore.Reads.{seq_range-IsLog}
use settled.Storage.TreeStore.{
  tree_key, node_put, write_batch, get_node, found_node, keys_of, cleared, recomputed,
  rebuild_after, rebuild_from_log,
}
use settled.Storage.TreeStore.Nodes.{node_at, IsNode}
use settled.Storage.TreeStore.Complete.{numbered, compute_nodes_from_leaves-IsNode}
use settled.Storage.TreeStore.Stored.{tree_key_injective, small_index, nodes-get_node}

abbrev pub leaf_hashes_of : List LogEntry → List Hash
leaf_hashes_of es = map (λ e. e.leaf_hash) es

length-leaf_hashes_of : (es : List LogEntry) → length (leaf_hashes_of es) ≡ length es
length-leaf_hashes_of [] = refl
length-leaf_hashes_of (e ∷ es) = omega (arith, length-leaf_hashes_of es)

leaf_hashes_of-IsHash : (es : List LogEntry) → All IsEntry es → All IsHash (leaf_hashes_of es)
leaf_hashes_of-IsHash [] all = tt
leaf_hashes_of-IsHash (e ∷ es) (v, all) = (v.2, leaf_hashes_of-IsHash es all)

numbered-leaf_hashes_of :
    (n : ℕ) (es : List LogEntry)
    → IsNumbered n es
    → map (λ e. (e.seq, e.leaf_hash)) es ≡ numbered n (leaf_hashes_of es)
numbered-leaf_hashes_of n [] num = refl
numbered-leaf_hashes_of n (e ∷ es) (here, num) =
    rw (numbered-leaf_hashes_of (n + 1) es num)
      (ap (λ (t : ℕ). (t, e.leaf_hash) ∷ numbered (n + 1) (leaf_hashes_of es)) here)

has_key-middle : (before after : List Bytes) (k : Bytes) → has_key (before ++ k ∷ after) k ≡ true
unfolding has_key
has_key-middle [] after k = rw (bytes_eq_refl k)
has_key-middle (k' ∷ before) after k = elim (Bool-cases (bytes_eq k' k)) [
  | inl same ↦ rw same
  | inr other ↦ rw other (has_key-middle before after k)
]

-- Deleting the keys of all rows leaves none.
delete_rows_all :
    (before : List Bytes) (rows : Rows) → delete_rows (before ++ map (λ row. row.0) rows) rows ≡ []
unfolding delete_rows
delete_rows_all before [] = refl
delete_rows_all before ((k, v) ∷ rows) =
    rw (has_key-middle before (map (λ (row : Row). row.0) rows) k) (
      ap (λ (keys : List Bytes). delete_rows keys rows)
        (sym (append_assoc before (k ∷ []) (map (λ (row : Row). row.0) rows)))
      ∙ delete_rows_all (before ++ k ∷ []) rows)

keys_of-some : (rows : Rows) → keys_of (map some rows) ≡ map (λ row. row.0) rows
unfolding keys_of
keys_of-some [] = refl
keys_of-some ((k, v) ∷ rows) = ap (◌∷◌ k) (keys_of-some rows)

-- A block that is not whole has no node.
find_row_none :
    (sha256 : Bytes → Hash) (xs : List Hash) (few : length xs < 2 ^ 64) (l i : ℕ)
    (nodes : List (ℕ × ℕ × Hash)) (rows : Rows)
    → IsU64 l
    → IsU64 i
    → length xs < 2 ^ l * (i + 1)
    → All (IsNode sha256 xs few) nodes
    → find_row (tree_key l i) (put_all cf_tree (map node_put nodes) rows)
      ≡ find_row (tree_key l i) rows
unfolding put_all
find_row_none sha256 xs few l i [] rows hl hi outside all = refl
find_row_none sha256 xs few l i ((l', i', v') ∷ nodes) rows hl hi outside
      ((low, fits, value), all) =
    let index = small_index (2 ^ l') i' (length xs) (two_pow_pos l') fits in
    let other : tree_key l' i' ≢ tree_key l i = (λ same.
      let (levels, indices) =
        tree_key_injective l' i' l i (omega (arith, low)) (omega (arith, few, index)) hl hi same in
      let block : 2 ^ l' * (i' + 1) ≡ 2 ^ l * (i + 1) = rw (levels, indices) refl in
      omega (arith, block, fits)) in
    find_row_none sha256 xs few l i nodes (put_row (tree_key l' i') v' rows) hl hi outside all
    ∙ find_row-put_row_other (tree_key l' i') v' (tree_key l i) rows other

-- The log's rows are in another column family.
other_family :
    (nodes : List (ℕ × ℕ × Hash)) (rows : Rows) → put_all cf_log (map node_put nodes) rows ≡ rows
unfolding put_all
other_family [] rows = refl
other_family (node ∷ nodes) rows = other_family nodes rows

module _ (r : Rocks) (m : Prost) where
  keys_are :
      (inner : DbInner r m) (es : List LogEntry)
      → IsLog r m inner es
      → keys_of (r.iterator_cf inner.db cf_tree start)
        ≡ map (λ row. row.0) (r.rows inner.db cf_tree)
  unfolding rows_in
  keys_are inner es log =
      ap keys_of (r.iterator_cf-IsReadable inner.db cf_tree start log.0)
      ∙ keys_of-some (r.rows inner.db cf_tree)

  -- The rows are deleted, or there are none.
  cleared-IsLog :
      (inner : DbInner r m) (es : List LogEntry) (rows : Rows)
      → IsLog r m inner es
      → r.rows inner.db cf_tree ≡ rows
      → ((r.delete inner.db cf_tree (map (λ row. row.0) rows) ≡ none)
          × (cleared r inner.db (map (λ row. row.0) rows) ≡ err rocks_db))
        ⊎ ((db : r.Db) × (cleared r inner.db (map (λ row. row.0) rows) ≡ ok db)
            × IsLog r m (record inner { db = db }) es
            × (r.rows db cf_tree ≡ []))
  unfolding cleared
  cleared-IsLog inner es [] log e = inr (inner.db, refl, log, e)
  cleared-IsLog inner es ((k, v) ∷ rows) log e =
      let keys = k ∷ map (λ (row : Row). row.0) rows in
      elim (Option-cases (r.delete inner.db cf_tree keys)) [
        | inl refused ↦ inl (refused, rw refused)
        | inr (db, w) ↦ inr (
          db,
          rw w,
          (
            r.delete-IsReadable inner.db db cf_tree keys w log.0,
            r.rows-delete inner.db db cf_tree keys w cf_log ∙ log.1,
            log.2,
            log.3,
            log.4,
            log.5,
          ),
          r.rows-delete inner.db db cf_tree keys w cf_tree
              ∙ ap (delete_rows keys) e
              ∙ delete_rows_all [] ((k, v) ∷ rows),
        )
      ]

module _ (r : Rocks) (m : Prost) (sha256 : Bytes → Hash)
    (length_sha256 : (t : Bytes) → IsHash (sha256 t)) where
  abbrev IsRebuilt : r.Db → (es : List LogEntry) → length (leaf_hashes_of es) < 2 ^ 64 → Type 0
  IsRebuilt db es few =
      (l i : ℕ)
      → l < 63
      → IsU64 i
      → (2 ^ l * (i + 1) ≤ length es
          → get_node r db l i ≡ ok (some (node_at sha256 (leaf_hashes_of es) few l i)))
        × (length es < 2 ^ l * (i + 1) → get_node r db l i ≡ ok none)

  -- The nodes of the log are written to no rows.
  written-IsRebuilt :
      (db db' : r.Db) (es : List LogEntry) (few : length (leaf_hashes_of es) < 2 ^ 64)
      (nodes : List (ℕ × ℕ × Hash))
      → r.IsReadable db
      → All IsEntry es
      → r.rows db cf_tree ≡ []
      → r.write db (map node_put nodes) ≡ some db'
      → All (IsNode sha256 (leaf_hashes_of es) few) nodes
      → ((l i : ℕ)
          → l < 63
          → 2 ^ l * (i + 1) ≤ length (leaf_hashes_of es)
          → Memᴰ (l, i, node_at sha256 (leaf_hashes_of es) few l i) nodes)
      → IsRebuilt db' es few
  unfolding get_node found_node find_row
  written-IsRebuilt db db' es few nodes readable entries empty w all there l i low hi =
      let readable' = r.write-IsReadable db db' (map node_put nodes) w readable in
      let holds : r.rows db' cf_tree ≡ put_all cf_tree (map node_put nodes) [] =
        r.rows-write db db' (map node_put nodes) w cf_tree
        ∙ ap (put_all cf_tree (map node_put nodes)) empty in
      (
        (λ fits.
            let fits' : 2 ^ l * (i + 1) ≤ length (leaf_hashes_of es) =
              omega (arith, fits, length-leaf_hashes_of es) in
            nodes-get_node sha256 length_sha256 (leaf_hashes_of es) few r db' [] nodes l i readable'
              holds (leaf_hashes_of-IsHash es entries) all (there l i low fits') low fits'),
        (λ outside. rw (
          r.get_cf-IsReadable db' cf_tree (tree_key l i) readable',
          holds,
          find_row_none sha256 (leaf_hashes_of es) few l i nodes [] (omega (arith, low)) hi
              (omega (arith, outside, length-leaf_hashes_of es)) all,
        )),
      )

  recomputed-IsLog :
      (inner : DbInner r m) (es : List LogEntry) (few : length (leaf_hashes_of es) < 2 ^ 64)
      → length es < 2 ^ 64 - 1
      → IsLog r m inner es
      → r.rows inner.db cf_tree ≡ []
      → (((nodes : List (ℕ × ℕ × Hash)) × (r.write inner.db (map node_put nodes) ≡ none))
          × (recomputed r m sha256 inner.db (seq_range r m inner 0 (2 ^ 64 - 1))
              ≡ done (err rocks_db)))
        ⊎ ((db : r.Db) × (recomputed r m sha256 inner.db (seq_range r m inner 0 (2 ^ 64 - 1))
              ≡ done (ok db))
            × IsLog r m (record inner { db = db }) es
            × IsRebuilt db es few)
  unfolding recomputed write_batch
  recomputed-IsLog inner es few short log empty =
      let (nodes, made, all, there) =
        compute_nodes_from_leaves-IsNode sha256 (leaf_hashes_of es) few in
      let read : seq_range r m inner 0 (2 ^ 64 - 1) ≡ ok es =
        seq_range-IsLog r m inner es 0 (2 ^ 64 - 1) log (omega arith)
        ∙ ap ok (take_all (2 ^ 64 - 1) es (omega (arith, short))) in
      let computed : recomputed r m sha256 inner.db (seq_range r m inner 0 (2 ^ 64 - 1))
          ≡ done (write_batch r inner.db nodes) =
        rw (read, numbered-leaf_hashes_of 0 es log.3, made) in
      elim (Option-cases (r.write inner.db (map node_put nodes))) [
        | inl refused ↦ inl ((nodes, refused), computed ∙ rw refused)
        | inr (db, w) ↦ inr (
          db,
          computed ∙ rw w,
          (
            r.write-IsReadable inner.db db (map node_put nodes) w log.0,
            r.rows-write inner.db db (map node_put nodes) w cf_log
                ∙ other_family nodes (r.rows inner.db cf_log)
                ∙ log.1,
            log.2,
            log.3,
            log.4,
            log.5,
          ),
          written-IsRebuilt inner.db db es few nodes log.0 log.2 empty w all there,
        )
      ]

  -- On a log whose entries `es` are numbered from 0 and of which the leaf hashes have 32 bytes,
  -- `rebuild_from_log` never panics. It fails by the database refusing
  -- the deletion of the tree's keys or the writing of nodes, or it leaves the log as it was and, for a level below 63 and an index below 2^64, `get_node` gives the tree hash
  -- of the block of 2^level leaves if the log has all of them, and none if it does not, whatever the
  -- tree's rows were before.
  pub rebuild_from_log-IsLog :
      (inner : DbInner r m) (es : List LogEntry) (few : length (leaf_hashes_of es) < 2 ^ 64)
      → length es < 2 ^ 64 - 1
      → IsLog r m inner es
      → (((r.delete inner.db cf_tree (map (λ row. row.0) (r.rows inner.db cf_tree)) ≡ none)
            ⊎ ((db : r.Db) × (nodes : List (ℕ × ℕ × Hash)) × (r.write db (map node_put nodes)
                  ≡ none)))
          × (rebuild_from_log r m sha256 inner ≡ done (err rocks_db)))
        ⊎ ((db : r.Db) × (rebuild_from_log r m sha256 inner ≡ done (ok db))
            × IsLog r m (record inner { db = db }) es
            × ((l i : ℕ)
                → l < 63
                → IsU64 i
                → (2 ^ l * (i + 1) ≤ length es
                    → get_node r db l i ≡ ok (some (node_at sha256 (leaf_hashes_of es) few l i)))
                  × (length es < 2 ^ l * (i + 1) → get_node r db l i ≡ ok none)))
  unfolding rebuild_from_log rebuild_after
  rebuild_from_log-IsLog inner es few short log =
      elim (cleared-IsLog r m inner es (r.rows inner.db cf_tree) log refl) [
        | inl (refused, e) ↦ inl (inl refused, rw (keys_are r m inner es log, e))
        | inr (db, e, log', empty) ↦
            elim (recomputed-IsLog (record inner { db = db }) es few short log' empty) [
              | inl (refused, e') ↦
                  inl (inr (db, refused.0, refused.1), rw (keys_are r m inner es log, e) e')
              | inr (db', ok', log'', nodes) ↦
                  inr (db', rw (keys_are r m inner es log, e) ok', log'', nodes)
            ]
      ]
