-- ===== src/Core/Merkle/Mth.antt =====
-- `mth` computes the tree hash and does not panic.
use settled.Prelude.{
  ℕ, zero, suc, ◌≤◌, ◌<◌, List, [], ◌∷◌, none, some, ◌≡◌, refl, length, arith, done, split_at_lem,
}
use settled.Core.Hash.{Bytes, Hash}
use settled.Core.Split.{IsU64, split}
use settled.Core.Split.Bounds.{k-eq-split, split_inside}
use settled.Core.Merkle.{mth_loop, mth, tree_hash}
use settled.Core.Merkle.Spec.{lower, upper, parts_inside, tree_hash_one, tree_hash-node}

module _ (sha256 : Bytes → Hash) where
  mth_loop-eq-tree_hash :
      (f : ℕ) (xs : List Hash)
      → length xs ≤ f
      → 0 < length xs
      → IsU64 (length xs)
      → mth_loop sha256 f xs ≡ done (some (tree_hash sha256 xs))
  unfolding mth_loop
  mth_loop-eq-tree_hash f [] l h w = absurd (omega arith)
  mth_loop-eq-tree_hash f (x ∷ []) l h w = rw (tree_hash_one sha256 x)
  mth_loop-eq-tree_hash zero (x ∷ y ∷ xs) l h w = absurd (omega arith)
  mth_loop-eq-tree_hash (suc f) (x ∷ y ∷ xs) l h w =
      let (p, q, r, s) = parts_inside (x ∷ y ∷ xs) (omega arith) in
      let (u, v) = split_inside (length (x ∷ y ∷ xs)) (omega arith) in
      rw (
        k-eq-split (length (x ∷ y ∷ xs)) (omega arith) w,
        split_at_lem (split (length (x ∷ y ∷ xs))) (x ∷ y ∷ xs) (omega arith),
        mth_loop-eq-tree_hash f (lower (x ∷ y ∷ xs)) (omega arith) p (omega arith),
        mth_loop-eq-tree_hash f (upper (x ∷ y ∷ xs)) (omega arith) r (omega arith),
        tree_hash-node sha256 (x ∷ y ∷ xs) (omega arith),
      )

  -- On a list that is not empty and whose length a `u64` holds, `mth` returns the tree hash of
  -- RFC 6962; none of its `unwrap`s, its assertion and its slices panics.
  pub mth-eq-tree_hash :
      (xs : List Hash)
      → 0 < length xs
      → IsU64 (length xs)
      → mth sha256 xs ≡ done (some (tree_hash sha256 xs))
  unfolding mth
  mth-eq-tree_hash xs h w = mth_loop-eq-tree_hash (length xs) xs (omega arith) h w

  pub mth_empty : mth sha256 [] ≡ done none
  unfolding mth mth_loop
  mth_empty = refl
