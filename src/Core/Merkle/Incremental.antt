-- ===== src/Core/Merkle/Incremental.antt =====
-- The incremental tree and the batch computation agree.
use settled.Prelude.{
  ◌+◌, List, [], ◌∷◌, ◌++◌, append-nil, append_assoc, ◌≡◌, refl, ap, sym, length, length-append,
  arith, done,
}
use mathlib.Core.Path.{subst}
use settled.Core.Hash.{Bytes, Hash}
use settled.Core.Split.{IsU64}
use settled.Core.Merkle.{MerkleTree, new, append_all, root, mth}
use settled.Core.Merkle.Mth.{mth-eq-tree_hash, mth_empty}
use settled.Core.Merkle.Tree.{IsTreeOf, IsTreeOf-new, append-IsTreeOf, root-IsTreeOf}

module _ (sha256 : Bytes → Hash) where
  pub append_all-IsTreeOf :
      (ys xs : List Hash) (t : MerkleTree)
      → IsTreeOf sha256 xs t
      → IsU64 (length xs + length ys)
      → (t' : MerkleTree) × (append_all sha256 t ys ≡ done t') × IsTreeOf sha256 (xs ++ ys) t'
  unfolding append_all
  append_all-IsTreeOf [] xs t v w =
      (t, refl, subst (λ l. IsTreeOf sha256 l t) (sym (append-nil xs)) v)
  append_all-IsTreeOf (y ∷ ys) xs t v w =
      let (t₁, one, v₁) = append-IsTreeOf sha256 xs t y v (omega arith) in
      let (t₂, more, v₂) =
        append_all-IsTreeOf ys (xs ++ y ∷ []) t₁ v₁ (omega (arith, length-append xs (y ∷ []))) in
      (t₂, rw (one, more), subst (λ l. IsTreeOf sha256 l t₂) (append_assoc xs (y ∷ []) ys) v₂)

  pub root-eq-mth :
      (xs : List Hash) (t : MerkleTree)
      → IsTreeOf sha256 xs t
      → IsU64 (length xs)
      → mth sha256 xs ≡ done (root sha256 t)
  unfolding root
  root-eq-mth [] t v w = rw (mth_empty sha256, v.sized)
  root-eq-mth (x ∷ xs) t v w =
      rw (mth-eq-tree_hash sha256 (x ∷ xs) (omega arith) w)
        (ap done (sym (root-IsTreeOf sha256 (x ∷ xs) t v (omega arith))))

  -- Appending any leaf hashes, as many as a `u64` counts, to the empty tree does not panic; the
  -- size is then their number, and `root` returns what `mth` computes from the whole list.
  pub root-append_all :
      (xs : List Hash)
      → IsU64 (length xs)
      → (t : MerkleTree) × (append_all sha256 new xs ≡ done t)
        × (t.size ≡ length xs)
        × (mth sha256 xs ≡ done (root sha256 t))
  root-append_all xs w =
      let (t, runs, v) = append_all-IsTreeOf xs [] new (IsTreeOf-new sha256) (omega arith) in
      (t, runs, v.sized, root-eq-mth xs t v w)
