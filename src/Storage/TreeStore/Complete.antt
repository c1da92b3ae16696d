-- ===== src/Storage/TreeStore/Complete.antt =====
-- `compute_nodes_from_leaves` gives all nodes of the tree, and nothing else.
use settled.Prelude.{
  ℕ, zero, suc, ◌+◌, ◌-◌, ◌*◌, ◌/◌, ◌%◌, ◌^◌, ◌≤◌, ◌<◌, List, [], ◌∷◌, ◌++◌, append-nil,
  append_assoc, none, some, ◌≡◌, ◌≢◌, ◌⊎◌, inl, inr, refl, ap, sym, ◌∙◌, arith, length, drop,
  drop-add, All, All-append, done, le-cases, eq-cases, lt→ltb, ltb_ge, ==_iff, ==_ne, two_pow_pos,
}
use mathlib.Core.List.{Memᴰ}
use mathlib.Core.List.Memᴰ
use native.Mathlib.Nat.{mod-eq_of_lt}
use settled.Core.Hash.{Bytes, Hash}
use settled.Core.Merkle.Spec.{tree_hash_one}
use settled.Storage.TreeStore.{Cache, insert, level_loop, leaves_loop, compute_nodes_from_leaves}
use settled.Storage.TreeStore.Numbers.{block_end, left_half, right_half}
use settled.Storage.TreeStore.Nodes.{node_at, IsNode, Has, node_at-node, ended, pushed}

-- The leaf hashes with their numbers.
abbrev pub numbered : ℕ → List Hash → List (ℕ × Hash)
numbered j [] = []
numbered j (x ∷ xs) = (j, x) ∷ numbered (j + 1) xs

module _ (sha256 : Bytes → Hash) (xs : List Hash) (few : length xs < 2 ^ 64) where
  -- What the loop over the levels gives, from a level on.
  abbrev Levels : ℕ → ℕ → ℕ → Cache → List (ℕ × ℕ × Hash) → Type 0
  Levels f j h cache acc =
      (cache' : Cache) × (nodes : List (ℕ × ℕ × Hash)) × (level_loop sha256 f j h cache
        ≡ done (cache', nodes))
      × ((l i : ℕ) → l < 63 → 2 ^ l * (i + 1) ≤ j + 1 → Has sha256 xs few cache' (acc ++ nodes) l i)
      × All (IsNode sha256 xs few) nodes

  level_loop-over :
      (f j g : ℕ) (cache : Cache) (acc : List (ℕ × ℕ × Hash))
      → j + 1 ≤ length xs
      → (63 ≤ suc g) ⊎ ((j + 1) % 2 ^ suc g ≢ 0)
      → ((l i : ℕ) → l < 63 → 2 ^ l * (i + 1) ≤ j + 1 → Has sha256 xs few cache acc l i)
      → Levels (suc f) j (suc g) cache acc
  unfolding level_loop
  level_loop-over f j g cache acc inside (inl top) known =
      (cache, [], rw (ltb_ge (suc g) 63 top), rw (append-nil acc) known, tt)
  level_loop-over f j g cache acc inside (inr not_whole) known =
      let fits : (j + 1) % 2 ^ 64 ≡ j + 1 = mod-eq_of_lt (omega (arith, few)) in
      elim (le-cases 63 (suc g)) [
        | inl top ↦ (cache, [], rw (ltb_ge (suc g) 63 top), rw (append-nil acc) known, tt)
        | inr low ↦ (
          cache,
          [],
          rw (lt→ltb (suc g) 63 low, fits, ==_ne ((j + 1) % 2 ^ suc g) 0 not_whole),
          rw (append-nil acc) known,
          tt,
        )
      ]

  -- One round: the node that ends at `j + 1` is made of two nodes of the cache.
  level_loop-round :
      (f j g : ℕ) (cache : Cache) (acc : List (ℕ × ℕ × Hash))
      → j + 1 ≤ length xs
      → suc g < 63
      → (j + 1) % 2 ^ suc g ≡ 0
      → cache g (2 * (j / 2 ^ suc g)) ≡ some (node_at sha256 xs few g (2 * (j / 2 ^ suc g)))
      → cache g (2 * (j / 2 ^ suc g) + 1) ≡ some (node_at sha256 xs few g (2 * (j / 2 ^ suc g) + 1))
      → 2 ^ suc g * (j / 2 ^ suc g + 1) ≡ j + 1
      → (let idx = j / 2 ^ suc g in
          let node = node_at sha256 xs few (suc g) idx in
          Levels f j (suc (suc g)) (insert (suc g) idx node cache) (acc ++ (suc g, idx, node) ∷ []))
      → Levels (suc f) j (suc g) cache acc
  unfolding level_loop
  level_loop-round f j g cache acc inside low whole left right ends
        (cache', nodes, runs, known, all) =
      let idx = j / 2 ^ suc g in
      let node = node_at sha256 xs few (suc g) idx in
      let fits : (j + 1) % 2 ^ 64 ≡ j + 1 = mod-eq_of_lt (omega (arith, few)) in
      let below : suc g - 1 ≡ g = omega arith in
      let above : suc g + 1 ≡ suc (suc g) = omega arith in
      let made = sym (node_at-node sha256 xs few g idx (omega (arith, ends, inside))) in
      (
        cache',
        (suc g, idx, node) ∷ nodes,
        rw (
          lt→ltb (suc g) 63 low,
          fits,
          (==_iff ((j + 1) % 2 ^ suc g) 0).1 whole,
          below,
          left,
          right,
          made,
          above,
          runs,
        ),
        rw (← append_assoc acc ((suc g, idx, node) ∷ []) nodes) known,
        ((low, omega (arith, ends, inside), refl), all),
      )

  level_loop-Levels :
      (f j g : ℕ) (cache : Cache) (acc : List (ℕ × ℕ × Hash))
      → 62 < f + g
      → g < 63
      → j + 1 ≤ length xs
      → ((l i : ℕ)
          → l < 63
          → 2 ^ l * (i + 1) ≤ j + 1
          → (l < suc g) ⊎ (2 ^ l * (i + 1) ≤ j)
          → Has sha256 xs few cache acc l i)
      → Levels f j (suc g) cache acc
  level_loop-Levels zero j g cache acc enough low inside known = absurd (omega arith)
  level_loop-Levels (suc f) j g cache acc enough low inside known = elim (le-cases 63 (suc g)) [
    | inl top ↦
        level_loop-over f j g cache acc inside (inl top)
          (ended sha256 xs few j g cache acc (inl top) known)
    | inr more ↦ elim (eq-cases ((j + 1) % 2 ^ suc g) 0) [
      | inr not_whole ↦
          level_loop-over f j g cache acc inside (inr not_whole)
            (ended sha256 xs few j g cache acc (inr not_whole) known)
      | inl whole ↦
          let idx = j / 2 ^ suc g in
          let ends = block_end (2 ^ suc g) j (two_pow_pos (suc g)) whole in
          let left =
            known g (2 * idx) low (omega (arith, ends, left_half g idx))
              (inr (omega (arith, ends, left_half g idx, two_pow_pos g))) in
          let right =
            known g (2 * idx + 1) low (omega (arith, ends, right_half g idx)) (inl (omega arith)) in
          level_loop-round f j g cache acc inside more whole left.0 right.0 ends (
            level_loop-Levels f j (suc g)
              (insert (suc g) idx (node_at sha256 xs few (suc g) idx) cache)
              (acc ++ (suc g, idx, node_at sha256 xs few (suc g) idx) ∷ []) (omega arith) more
              inside (pushed sha256 xs few j g idx cache acc ends known))
    ]
  ]

  -- The node of a leaf is its hash.
  leaf-node_at :
      (j : ℕ) (x : Hash) (ys : List Hash) → drop j xs ≡ x ∷ ys → x ≡ node_at sha256 xs few 0 j
  leaf-node_at j x ys rest =
      let start : 2 ^ 0 * j ≡ j = omega arith in sym (rw (start, rest) (tree_hash_one sha256 x))

  -- After a leaf is put into the cache.
  leaf_put :
      (j : ℕ) (x : Hash) (cache : Cache) (acc : List (ℕ × ℕ × Hash))
      → x ≡ node_at sha256 xs few 0 j
      → ((l i : ℕ) → l < 63 → 2 ^ l * (i + 1) ≤ j → Has sha256 xs few cache acc l i)
      → (l i : ℕ) → l < 63
      → 2 ^ l * (i + 1) ≤ j + 1
      → (l < 1) ⊎ (2 ^ l * (i + 1) ≤ j)
      → Has sha256 xs few (insert 0 j x cache) (acc ++ (0, j, x) ∷ []) l i
  unfolding insert
  leaf_put j x cache acc leaf known l i low le cases = elim (eq-cases l 0) [
    | inr other ↦
        let before : 2 ^ l * (i + 1) ≤ j = elim cases [
          | inl bottom ↦ absurd (omega arith)
          | inr before ↦ before
        ] in
        let (cached, there) = known l i low before in
        (rw (==_ne l 0 other) cached, Memᴰ.append_left ((0, j, x) ∷ []) there)
    | inl bottom ↦ elim (eq-cases i j) [
      | inl here ↦ (
        rw ((==_iff l 0).1 bottom, (==_iff i j).1 here, bottom, here) (ap some leaf),
        rw (bottom, here, ← leaf) (Memᴰ.append_right acc (Memᴰ.head refl)),
      )
      | inr differ ↦
          let count : 2 ^ l * (i + 1) ≡ i + 1 = rw bottom (omega arith) in
          let (cached, there) = known l i low (omega (arith, count, le)) in
          (
            rw ((==_iff l 0).1 bottom, ==_ne i j differ) cached,
            Memᴰ.append_left ((0, j, x) ∷ []) there,
          )
    ]
  ]

  leaves_loop-Has :
      (j : ℕ) (ys : List Hash) (cache : Cache) (acc : List (ℕ × ℕ × Hash))
      → drop j xs ≡ ys
      → j + length ys ≡ length xs
      → ((l i : ℕ) → l < 63 → 2 ^ l * (i + 1) ≤ j → Has sha256 xs few cache acc l i)
      → (nodes : List (ℕ × ℕ × Hash)) × (leaves_loop sha256 (numbered j ys) cache ≡ done nodes)
        × All (IsNode sha256 xs few) nodes
        × ((l i : ℕ)
            → l < 63
            → 2 ^ l * (i + 1) ≤ length xs
            → Memᴰ (l, i, node_at sha256 xs few l i) (acc ++ nodes))
  unfolding leaves_loop
  leaves_loop-Has j [] cache acc rest count known =
      ([], refl, tt, λ l i low le. rw (append-nil acc) (known l i low (omega (arith, count))).1)
  leaves_loop-Has j (x ∷ ys) cache acc rest count known =
      let leaf = leaf-node_at j x ys rest in
      let (cache', nodes, runs, known', all) =
        level_loop-Levels 63 j 0 (insert 0 j x cache) (acc ++ (0, j, x) ∷ []) (omega arith)
          (omega arith) (omega (arith, count)) (leaf_put j x cache acc leaf known) in
      let after : drop (j + 1) xs ≡ ys = drop-add j 1 (j + 1) xs refl ∙ ap (drop 1) rest in
      let (more, runs', all', there) =
        leaves_loop-Has (j + 1) ys cache' ((acc ++ (0, j, x) ∷ []) ++ nodes) after
          (omega (arith, count)) known' in
      let fits : 2 ^ 0 * (j + 1) ≤ length xs = omega (arith, count) in
      (
        (0, j, x) ∷ nodes ++ more,
        rw (runs, runs'),
        ((omega arith, fits, leaf), All-append (IsNode sha256 xs few) nodes more all all'),
        rw (← append_assoc acc ((0, j, x) ∷ nodes) more, ← append_assoc acc ((0, j, x) ∷ []) nodes)
            there,
      )

  -- For leaf hashes numbered from 0, fewer than 2^64, `compute_nodes_from_leaves` never panics, and
  -- what it returns are exactly the nodes of the tree: every returned hash, at a level below 63, is
  -- the tree hash of its whole block of 2^level leaves, and the hash of every such block is returned.
  pub compute_nodes_from_leaves-IsNode :
      (nodes : List (ℕ × ℕ × Hash)) × (compute_nodes_from_leaves sha256 (numbered 0 xs)
        ≡ done nodes)
      × All (IsNode sha256 xs few) nodes
      × ((l i : ℕ)
          → l < 63
          → 2 ^ l * (i + 1) ≤ length xs
          → Memᴰ (l, i, node_at sha256 xs few l i) nodes)
  unfolding compute_nodes_from_leaves
  compute_nodes_from_leaves-IsNode =
      leaves_loop-Has 0 xs (λ l i. none) [] refl (omega arith)
        (λ l i low le. absurd (omega (arith, empty l i le)))
    where
      empty : (l i : ℕ) → 2 ^ l * (i + 1) ≤ 0 → 0 < 0
      empty l i le = grind (arith, two_pow_pos l)
