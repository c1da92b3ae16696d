-- ===== src/Storage/TreeStore/Nodes.antt =====
-- The nodes that `compute_nodes_from_leaves` gives are the tree hashes of the blocks of leaves.
use settled.Prelude.{
  ℕ, suc, ◌+◌, ◌*◌, ◌%◌, ◌^◌, ◌≤◌, ◌<◌, List, [], ◌∷◌, ◌++◌, some, ◌≡◌, ◌≢◌, ◌⊎◌, inl, inr, refl,
  ap, sym, ◌∙◌, arith, length, length-take, length-drop, take, take-add, drop, drop-add, le-cases,
  eq-cases, ==_iff, ==_ne, two_pow-suc, two_pow_pos,
}
use mathlib.Core.List.{Memᴰ}
use mathlib.Core.List.Memᴰ
use settled.Core.Hash.{Bytes, Hash, node_hash}
use settled.Core.Merkle.{tree_hash}
use settled.Core.Merkle.Spec.{tree_hash-append}
use settled.Storage.TreeStore.{Cache, insert}
use settled.Storage.TreeStore.Numbers.{
  smaller_block, same_block, left_half, left_start, right_start,
}

module _ (sha256 : Bytes → Hash) (xs : List Hash) (few : length xs < 2 ^ 64) where
  -- The tree hash of a block: `2 ^ l` leaves from the `i`-th such block on.
  abbrev pub node_at : ℕ → ℕ → Hash
  node_at l i = tree_hash sha256 (take (2 ^ l) (drop (2 ^ l * i) xs))

  -- A node of the tree, at a level that the code reaches.
  abbrev pub IsNode : ℕ × ℕ × Hash → Type 0
  IsNode (l, i, v) = (l < 63) × (2 ^ l * (i + 1) ≤ length xs) × (v ≡ node_at l i)

  -- A node that is in the cache, and among the nodes that were pushed.
  abbrev pub Has : Cache → List (ℕ × ℕ × Hash) → ℕ → ℕ → Type 0
  Has cache acc l i = (cache l i ≡ some (node_at l i)) × Memᴰ (l, i, node_at l i) acc

  -- A node is made of the two below it.
  pub node_at-node :
      (g i : ℕ)
      → 2 ^ suc g * (i + 1) ≤ length xs
      → node_at (suc g) i ≡ node_hash sha256 (node_at g (2 * i)) (node_at g (2 * i + 1))
  node_at-node g i fits =
      let left = take (2 ^ g) (drop (2 ^ suc g * i) xs) in
      let right = take (2 ^ g) (drop (2 ^ g * (2 * i + 1)) xs) in
      let left_is : take (2 ^ g) (drop (2 ^ g * (2 * i)) xs) ≡ left =
        ap (λ (t : ℕ). take (2 ^ g) (drop t xs)) (left_start g i) in
      let right_is : take (2 ^ g) (drop (2 ^ g) (drop (2 ^ suc g * i) xs)) ≡ right =
        ap (take (2 ^ g))
          (sym (drop-add (2 ^ suc g * i) (2 ^ g) (2 ^ g * (2 * i + 1)) xs (right_start g i))) in
      let whole : take (2 ^ suc g) (drop (2 ^ suc g * i) xs) ≡ left ++ right =
        take-add (2 ^ g) (2 ^ g) (2 ^ suc g) (drop (2 ^ suc g * i) xs)
          (omega (arith, two_pow-suc g))
        ∙ ap (λ (t : List Hash). left ++ t) right_is in
      let ends : 2 ^ g * (2 * i + 1) + 2 ^ g ≤ length xs = omega (arith, left_half g i) in
      let left_size : length left ≡ 2 ^ g = omega (
        arith,
        length-take (2 ^ g) (drop (2 ^ suc g * i) xs),
        length-drop (2 ^ suc g * i) xs,
        ends,
        right_start g i,
      ) in
      let right_size : length right ≡ 2 ^ g = omega (
        arith,
        length-take (2 ^ g) (drop (2 ^ g * (2 * i + 1)) xs),
        length-drop (2 ^ g * (2 * i + 1)) xs,
        ends,
      ) in
      ap (tree_hash sha256) whole
      ∙ tree_hash-append sha256 g left right left_size (omega (arith, right_size, two_pow_pos g))
          (omega (arith, right_size))
      ∙ ap (λ (t : List Hash). node_hash sha256 (tree_hash sha256 t) (tree_hash sha256 right))
          (sym left_is)

  -- The loop is over at a level: what is known of the levels below it is all.
  pub ended :
      (j g : ℕ) (cache : Cache) (acc : List (ℕ × ℕ × Hash))
      → (63 ≤ suc g) ⊎ ((j + 1) % 2 ^ suc g ≢ 0)
      → ((l i : ℕ)
          → l < 63
          → 2 ^ l * (i + 1) ≤ j + 1
          → (l < suc g) ⊎ (2 ^ l * (i + 1) ≤ j)
          → Has cache acc l i)
      → (l i : ℕ) → l < 63
      → 2 ^ l * (i + 1) ≤ j + 1
      → Has cache acc l i
  ended j g cache acc over known l i low le = elim (le-cases (2 ^ l * (i + 1)) j) [
    | inl before ↦ known l i low le (inr before)
    | inr after ↦ elim (le-cases (suc g) l) [
      | inr below ↦ known l i low le (inl below)
      | inl above ↦ elim over [
        | inl top ↦ absurd (omega arith)
        | inr not_whole ↦ absurd (not_whole (smaller_block (suc g) l i (j + 1) above (omega arith)))
      ]
    ]
  ]

  -- After the node that ends at `j + 1` is pushed.
  pub pushed :
      (j g idx : ℕ) (cache : Cache) (acc : List (ℕ × ℕ × Hash))
      → 2 ^ suc g * (idx + 1) ≡ j + 1
      → ((l i : ℕ)
          → l < 63
          → 2 ^ l * (i + 1) ≤ j + 1
          → (l < suc g) ⊎ (2 ^ l * (i + 1) ≤ j)
          → Has cache acc l i)
      → (l i : ℕ) → l < 63
      → 2 ^ l * (i + 1) ≤ j + 1
      → (l < suc (suc g)) ⊎ (2 ^ l * (i + 1) ≤ j)
      → Has
          (insert (suc g) idx (node_at (suc g) idx) cache)
          (acc ++ (suc g, idx, node_at (suc g) idx) ∷ [])
          l
          i
  unfolding insert
  pushed j g idx cache acc ends known l i low le cases = elim (eq-cases l (suc g)) [
    | inr other ↦
        let (cached, there) = known l i low le (
          let sides : (l < suc g) ⊎ (2 ^ l * (i + 1) ≤ j) = elim cases [
            | inl below ↦ inl (omega arith)
            | inr before ↦ inr before
          ] in
          sides) in
        (
          rw (==_ne l (suc g) other) cached,
          Memᴰ.append_left ((suc g, idx, node_at (suc g) idx) ∷ []) there,
        )
    | inl same ↦ elim (eq-cases i idx) [
      | inl here ↦ (
        rw ((==_iff l (suc g)).1 same, (==_iff i idx).1 here, same, here),
        rw (same, here) (Memᴰ.append_right acc (Memᴰ.head refl)),
      )
      | inr differ ↦
          let before : 2 ^ l * (i + 1) ≤ j = elim (le-cases (2 ^ l * (i + 1)) j) [
            | inl yes_before ↦ yes_before
            | inr at_end ↦ absurd (
                differ (
                  same_block (2 ^ suc g) i idx (two_pow_pos (suc g))
                    (ap (λ (t : ℕ). 2 ^ t * (i + 1)) (sym same) ∙ omega (arith, ends))))
          ] in
          let (cached, there) = known l i low le (inr before) in
          (
            rw ((==_iff l (suc g)).1 same, ==_ne i idx differ) cached,
            Memᴰ.append_left ((suc g, idx, node_at (suc g) idx) ∷ []) there,
          )
    ]
  ]
