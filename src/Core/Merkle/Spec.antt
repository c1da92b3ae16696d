-- ===== src/Core/Merkle/Spec.antt =====
-- The tree hash by its one equation, and induction along the splits of a list.
use settled.Prelude.{
  All, ℕ, zero, suc, ◌+◌, ◌^◌, ◌≤◌, ◌<◌, List, [], ◌∷◌, ◌++◌, ◌≡◌, refl, ap₂, ◌∙◌, length, take,
  drop, length-take, length-drop, length-append, take-append_left, drop-append_left, arith,
  two_pow_pos,
}
use settled.Core.Hash.{Bytes, Hash, IsHash, node_hash}
use settled.Core.Split.{split}
use settled.Core.Split.Bounds.{split_inside, split_unique}
use settled.Core.Merkle.{tree_hash_loop, tree_hash}

module _ {ℓ} {A : Type ℓ} where
  abbrev pub lower : List A → List A
  lower xs = take (split (length xs)) xs

  abbrev pub upper : List A → List A
  upper xs = drop (split (length xs)) xs

  pub length-lower : (xs : List A) → 1 < length xs → length (lower xs) ≡ split (length xs)
  length-lower xs h =
      let (a, b) = split_inside (length xs) h in omega (arith, length-take (split (length xs)) xs)

  pub length-upper :
      (xs : List A) → 1 < length xs → length (upper xs) + split (length xs) ≡ length xs
  length-upper xs h =
      let (a, b) = split_inside (length xs) h in omega (arith, length-drop (split (length xs)) xs)

  -- Both parts are shorter and not empty.
  pub parts_inside :
      (xs : List A)
      → 1 < length xs
      → (0 < length (lower xs))
        × (length (lower xs) < length xs)
        × (0 < length (upper xs))
        × (length (upper xs) < length xs)
  parts_inside xs h =
      let (a, b) = split_inside (length xs) h in omega (arith, length-lower xs h, length-upper xs h)

  module _ {κ} (P : List A → Type κ) where
    split_induction_fuel :
        ((x : A) → P (x ∷ []))
        → ((xs : List A) → 1 < length xs → P (lower xs) → P (upper xs) → P xs)
        → (f : ℕ) (xs : List A) → length xs ≤ f
        → 0 < length xs
        → P xs
    split_induction_fuel one more f [] l h = absurd (omega arith)
    split_induction_fuel one more f (x ∷ []) l h = one x
    split_induction_fuel one more zero (x ∷ y ∷ xs) l h = absurd (omega arith)
    split_induction_fuel one more (suc f) (x ∷ y ∷ xs) l h =
        let (a, b, c, d) = parts_inside (x ∷ y ∷ xs) (omega arith) in
        more (x ∷ y ∷ xs) (omega arith)
          (split_induction_fuel one more f (lower (x ∷ y ∷ xs)) (omega arith) a)
          (split_induction_fuel one more f (upper (x ∷ y ∷ xs)) (omega arith) c)

    -- What holds of one leaf, and of a list if of its two parts, holds of every non-empty list.
    pub split_induction :
        ((x : A) → P (x ∷ []))
        → ((xs : List A) → 1 < length xs → P (lower xs) → P (upper xs) → P xs)
        → (xs : List A) → 0 < length xs
        → P xs
    split_induction one more xs h = split_induction_fuel one more (length xs) xs (omega arith) h

module _ (sha256 : Bytes → Hash) where
  tree_hash_loop_fuel :
      (f g : ℕ) (xs : List Hash)
      → length xs ≤ f
      → length xs ≤ g
      → tree_hash_loop sha256 f xs ≡ tree_hash_loop sha256 g xs
  unfolding tree_hash_loop
  tree_hash_loop_fuel f g [] a b = refl
  tree_hash_loop_fuel f g (x ∷ []) a b = refl
  tree_hash_loop_fuel zero g (x ∷ y ∷ xs) a b = absurd (omega arith)
  tree_hash_loop_fuel (suc f) zero (x ∷ y ∷ xs) a b = absurd (omega arith)
  tree_hash_loop_fuel (suc f) (suc g) (x ∷ y ∷ xs) a b =
      let (p, q, r, s) = parts_inside (x ∷ y ∷ xs) (omega arith) in
      ap₂ (node_hash sha256)
        (tree_hash_loop_fuel f g (lower (x ∷ y ∷ xs)) (omega arith) (omega arith))
        (tree_hash_loop_fuel f g (upper (x ∷ y ∷ xs)) (omega arith) (omega arith))

  pub tree_hash_one : (x : Hash) → tree_hash sha256 (x ∷ []) ≡ x
  unfolding tree_hash
  tree_hash_one x = refl

  -- MTH(D[n]) = node(MTH(D[0:k]), MTH(D[k:n])).
  pub tree_hash-node :
      (xs : List Hash)
      → 1 < length xs
      → tree_hash sha256 xs
        ≡ node_hash sha256 (tree_hash sha256 (lower xs)) (tree_hash sha256 (upper xs))
  unfolding tree_hash
  tree_hash-node [] h = absurd (omega arith)
  tree_hash-node (x ∷ []) h = absurd (omega arith)
  tree_hash-node (x ∷ y ∷ xs) h =
      let (p, q, r, s) = parts_inside (x ∷ y ∷ xs) (omega arith) in
      ap₂ (node_hash sha256)
        (tree_hash_loop_fuel (suc (length xs)) _ (lower (x ∷ y ∷ xs)) (omega arith) (omega arith))
        (tree_hash_loop_fuel (suc (length xs)) _ (upper (x ∷ y ∷ xs)) (omega arith) (omega arith))

  -- A full left part and a right part that is not larger hash to one node.
  pub tree_hash-append :
      (p : ℕ) (xs ys : List Hash)
      → length xs ≡ 2 ^ p
      → 0 < length ys
      → length ys ≤ 2 ^ p
      → tree_hash sha256 (xs ++ ys) ≡ node_hash sha256 (tree_hash sha256 xs) (tree_hash sha256 ys)
  tree_hash-append p xs ys e lo hi =
      let total : length (xs ++ ys) ≡ length xs + length ys = length-append xs ys in
      let at : split (length (xs ++ ys)) ≡ length xs =
        split_unique p (length (xs ++ ys)) (omega arith) (omega arith) ∙ omega arith in
      let big : 1 < length (xs ++ ys) = omega (arith, two_pow_pos p) in
      tree_hash-node (xs ++ ys) big
      ∙ ap₂ (λ a b. node_hash sha256 (tree_hash sha256 a) (tree_hash sha256 b))
          (take-append_left xs ys _ at) (drop-append_left xs ys _ at)

  -- A tree hash has the 32 bytes that SHA-256 gives, or is a leaf.
  pub tree_hash-IsHash :
      ((t : Bytes) → IsHash (sha256 t))
      → (xs : List Hash) → 0 < length xs
      → All IsHash xs
      → IsHash (tree_hash sha256 xs)
  unfolding node_hash
  tree_hash-IsHash long [] h a = absurd (omega arith)
  tree_hash-IsHash long (x ∷ []) h a = rw (tree_hash_one x) a.0
  tree_hash-IsHash long (x ∷ y ∷ xs) h a = rw (tree_hash-node (x ∷ y ∷ xs) (omega arith)) (long _)
