-- ===== src/Storage/TreeStore/Examples.antt =====
-- Tests of the tree store.
use settled.Prelude.{
  ℕ, ◌+◌, ◌*◌, ◌^◌, ◌≤◌, ◌<◌, List, [], ◌∷◌, none, some, ◌≡◌, ◌⊎◌, refl, arith, length, map, done,
}
use settled.Prelude.Results.{ok, err}
use settled.Core.Hash.{Hash, node_hash}
use settled.Core.Split.{IsU64}
use settled.Core.Examples.{toy, toy_length, at, leaves}
use settled.Storage.Types.{rocks_db}
use settled.Storage.Rocks.{put_all, cf_tree}
use settled.Storage.Examples.{table, lengths_first, entry, one, one-IsLog}
use settled.Storage.LogStore.{DbInner}
use settled.Storage.LogStore.Log.{IsLog}
use settled.Storage.TreeStore.{
  compute_nodes_from_leaves, insert, leaves_loop, level_loop, node_put, get_node, rebuild_from_log,
}
use settled.Storage.TreeStore.Nodes.{node_at}
use settled.Storage.TreeStore.Complete.{numbered}
use settled.Storage.TreeStore.Rebuild.{leaf_hashes_of, rebuild_from_log-IsLog}

-- Three leaves have one node above them.
three_leaves :
    compute_nodes_from_leaves toy (numbered 0 leaves)
    ≡ done ((0, 0, at 10) ∷ (0, 1, at 20) ∷ (1, 0, at 79) ∷ (0, 2, at 30) ∷ [])
unfolding compute_nodes_from_leaves insert node_hash leaves_loop level_loop
three_leaves = refl

-- A log of one entry, with a node that is no longer of its tree.
abbrev stale : DbInner table lengths_first
stale = record { db = λ c. put_all c (node_put (1, 0, at 10) ∷ []) (one.db c); next_seq = 1 }

stale-IsLog : IsLog table lengths_first stale (entry ∷ [])
unfolding put_all
stale-IsLog = one-IsLog

few_leaves : length (leaf_hashes_of (entry ∷ [])) < 2 ^ 64
few_leaves = omega arith

rebuild_from_log-IsLog_example :
    (((table.delete stale.db cf_tree (map (λ row. row.0) (table.rows stale.db cf_tree)) ≡ none)
        ⊎ ((db : table.Db) × (nodes : List (ℕ × ℕ × Hash)) × (table.write db (map node_put nodes)
              ≡ none)))
      × (rebuild_from_log table lengths_first toy stale ≡ done (err rocks_db)))
    ⊎ ((db : table.Db) × (rebuild_from_log table lengths_first toy stale ≡ done (ok db))
        × IsLog table lengths_first (record stale { db = db }) (entry ∷ [])
        × ((l i : ℕ)
            → l < 63
            → IsU64 i
            → (2 ^ l * (i + 1) ≤ 1
                → get_node table db l i
                  ≡ ok (some (node_at toy (leaf_hashes_of (entry ∷ [])) few_leaves l i)))
              × (1 < 2 ^ l * (i + 1) → get_node table db l i ≡ ok none)))
rebuild_from_log-IsLog_example =
    rebuild_from_log-IsLog table lengths_first toy toy_length stale (entry ∷ []) few_leaves
      (omega arith) stale-IsLog
