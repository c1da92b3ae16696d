-- ===== src/Storage/TreeStore/Stored.antt =====
-- The nodes that are written are read back.
use settled.Prelude.{
  ℕ, ◌+◌, ◌*◌, ◌^◌, ◌≤◌, ◌<◌, List, [], ◌∷◌, ◌++◌, some, ◌≡◌, ◌≢◌, ◌⊎◌, inl, inr, refl, ap, sym,
  ◌∙◌, arith, length, length-take, length-drop, take, drop, map, All, All-take, All-drop, eq-cases,
  ==_iff, two_pow_pos,
}
use mathlib.Core.List.{Memᴰ}
use native.Mathlib.Nat.{mul-le-mul_right}
use settled.Prelude.Results.{ok}
use settled.Core.Hash.{Bytes, Hash, IsHash}
use settled.Core.Hash.Collisions.{append_injective}
use settled.Core.Split.{IsU64}
use settled.Core.Merkle.Spec.{tree_hash-IsHash}
use settled.Storage.Rows.{Rows, find_row, put_row, u64_key}
use settled.Storage.Rows.BigEndian.{length-u64_key}
use settled.Storage.Rows.Put.{find_row-put_row, find_row-put_row_other}
use settled.Storage.Rocks.{Rocks, put_all, cf_tree}
use settled.Storage.LogStore.Reads.{u64_key_injective}
use settled.Storage.TreeStore.{tree_key, node_put, found_node, get_node}
use settled.Storage.TreeStore.Nodes.{node_at, IsNode}

tree_key-parts : (l i : ℕ) → tree_key l i ≡ u64_key l ++ u64_key i
unfolding tree_key u64_key
tree_key-parts l i = refl

pub tree_key_injective :
    (l i l' i' : ℕ)
    → IsU64 l
    → IsU64 i
    → IsU64 l'
    → IsU64 i'
    → tree_key l i ≡ tree_key l' i'
    → (l ≡ l') × (i ≡ i')
tree_key_injective l i l' i' hl hi hl' hi' same =
    let (levels, indices) =
      append_injective (u64_key l) (u64_key i) (u64_key l') (u64_key i')
        (length-u64_key l ∙ sym (length-u64_key l'))
        (sym (tree_key-parts l i) ∙ same ∙ tree_key-parts l' i') in
    (u64_key_injective l l' hl hl' levels, u64_key_injective i i' hi hi' indices)

-- A node that agrees with the hash `v` for the block `(l, i)`, and whose numbers are of 64 bits.
abbrev Agrees : ℕ → ℕ → Hash → ℕ × ℕ × Hash → Type 0
Agrees l i v (l', i', v') = IsU64 l' × IsU64 i' × (l' ≡ l → i' ≡ i → v' ≡ v)

-- A put of another node leaves it.
kept :
    (l i : ℕ) (v : Hash) (l' i' : ℕ) (v' : Hash) (nodes : List (ℕ × ℕ × Hash)) (rows : Rows)
    → tree_key l' i' ≢ tree_key l i
    → ◌≢◌ {A = ℕ × ℕ × Hash} (l, i, v) (l', i', v')
    → Memᴰ (l, i, v) ((l', i', v') ∷ nodes) ⊎ (find_row (tree_key l i) rows ≡ some v)
    → Memᴰ (l, i, v) nodes ⊎ (find_row (tree_key l i) (put_row (tree_key l' i') v' rows) ≡ some v)
kept l i v l' i' v' nodes rows other differ (inr found) =
    inr (find_row-put_row_other (tree_key l' i') v' (tree_key l i) rows other ∙ found)
kept l i v l' i' v' nodes rows other differ (inl (Memᴰ.head same)) = absurd (differ same)
kept l i v l' i' v' nodes rows other differ (inl (Memᴰ.tail there)) = inl there

-- The row of a node after a batch: the batch has it, or the row was there.
find_row-node_put :
    (l i : ℕ) (v : Hash) (nodes : List (ℕ × ℕ × Hash)) (rows : Rows)
    → IsU64 l
    → IsU64 i
    → All (Agrees l i v) nodes
    → Memᴰ (l, i, v) nodes ⊎ (find_row (tree_key l i) rows ≡ some v)
    → find_row (tree_key l i) (put_all cf_tree (map node_put nodes) rows) ≡ some v
unfolding put_all
find_row-node_put l i v [] rows hl hi all (inl there) = elim there [ ]
find_row-node_put l i v [] rows hl hi all (inr found) = found
find_row-node_put l i v ((l', i', v') ∷ nodes) rows hl hi ((hl', hi', agrees), all) there =
    elim (eq-cases l' l) [
      | inl level ↦ elim (eq-cases i' i) [
        | inl index ↦
            let value = agrees level index in
            find_row-node_put l i v nodes _ hl hi all
              (inr (rw (level, index, value) (find_row-put_row (tree_key l i) v rows)))
        | inr differ ↦ find_row-node_put l i v nodes _ hl hi all (
            kept l i v l' i' v' nodes rows
              (λ same. differ (tree_key_injective l' i' l i hl' hi' hl hi same).1)
              (λ same. differ (sym (ap (λ (t : ℕ × ℕ × Hash). t.1) same))) there)
      ]
      | inr differ ↦ find_row-node_put l i v nodes _ hl hi all (
          kept l i v l' i' v' nodes rows
            (λ same. differ (tree_key_injective l' i' l i hl' hi' hl hi same).0)
            (λ same. differ (sym (ap (λ (t : ℕ × ℕ × Hash). t.0) same))) there)
    ]

pub small_index : (b i n : ℕ) → 0 < b → b * (i + 1) ≤ n → i < n
small_index b i n h le =
    let product : 1 * (i + 1) ≤ b * (i + 1) = mul-le-mul_right (i + 1) h in omega arith

module _ (sha256 : Bytes → Hash) (length_sha256 : (t : Bytes) → IsHash (sha256 t)) (xs : List Hash)
    (few : length xs < 2 ^ 64) where
  IsNode-Agrees :
      (l i : ℕ) (nodes : List (ℕ × ℕ × Hash))
      → All (IsNode sha256 xs few) nodes
      → All (Agrees l i (node_at sha256 xs few l i)) nodes
  IsNode-Agrees l i [] all = tt
  IsNode-Agrees l i ((l', i', v') ∷ nodes) ((low, fits, value), all) = (
    (
      omega (arith, low),
      omega (arith, few, small_index (2 ^ l') i' (length xs) (two_pow_pos l') fits),
      λ level index.
          value
          ∙ ap (λ (t : ℕ). node_at sha256 xs few t i') level
          ∙ ap (node_at sha256 xs few l) index,
    ),
    IsNode-Agrees l i nodes all,
  )

  node_at-IsHash :
      (l i : ℕ) → All IsHash xs → 2 ^ l * (i + 1) ≤ length xs → IsHash (node_at sha256 xs few l i)
  node_at-IsHash l i hashes fits =
      let product : 2 ^ l * (i + 1) ≡ 2 ^ l * i + 2 ^ l = grind arith in
      tree_hash-IsHash sha256 length_sha256 (take (2 ^ l) (drop (2 ^ l * i) xs))
        (omega (
          arith,
          length-take (2 ^ l) (drop (2 ^ l * i) xs),
          length-drop (2 ^ l * i) xs,
          fits,
          product,
          two_pow_pos l,
        ))
        (All-take IsHash (2 ^ l) (drop (2 ^ l * i) xs) (All-drop IsHash (2 ^ l * i) xs hashes))

  -- What `get_node` reads of the rows that nodes were written to.
  pub nodes-get_node :
      (r : Rocks) (db : r.Db) (rows : Rows) (nodes : List (ℕ × ℕ × Hash)) (l i : ℕ)
      → r.IsReadable db
      → r.rows db cf_tree ≡ put_all cf_tree (map node_put nodes) rows
      → All IsHash xs
      → All (IsNode sha256 xs few) nodes
      → Memᴰ (l, i, node_at sha256 xs few l i) nodes
      → l < 63
      → 2 ^ l * (i + 1) ≤ length xs
      → get_node r db l i ≡ ok (some (node_at sha256 xs few l i))
  unfolding get_node found_node
  nodes-get_node r db rows nodes l i readable holds hashes all there low fits = rw (
    r.get_cf-IsReadable db cf_tree (tree_key l i) readable,
    holds,
    find_row-node_put l i (node_at sha256 xs few l i) nodes rows (omega (arith, low))
        (omega (arith, few, small_index (2 ^ l) i (length xs) (two_pow_pos l) fits))
        (IsNode-Agrees l i nodes all) (inl there),
    (==_iff (length (node_at sha256 xs few l i)) 32).1 (node_at-IsHash l i hashes fits),
  )
