-- ===== src/Core/Proof/Inclusion.antt =====
-- Inclusion proofs: a generated proof is accepted.
use mathlib.Core.List.{reverse, reverse-append}
use mathlib.Core.Path.{subst, subst₂}
use settled.Prelude.{
  All, All-append, All-take, All-drop, ℕ, zero, suc, ◌-◌, ◌≤◌, ◌<◌, List, [], ◌∷◌, ◌++◌, some, ◌≡◌,
  inl, inr, refl, sym, ◌∙◌, arith, length, get_elem?, get_elem?-lt_length, get_elem?-take,
  get_elem?-drop, true, le-cases, lt→ltb, ltb_ge, leb_gt, ==_ne, done, split_at_lem,
}
use settled.Core.Hash.{Bytes, Hash, IsHash}
use settled.Core.Split.{IsU64, split}
use settled.Core.Split.Bounds.{k_usize-eq-split, split_inside}
use settled.Core.Merkle.{mth, tree_hash}
use settled.Core.Merkle.Spec.{
  lower, upper, length-lower, length-upper, parts_inside, tree_hash_one, tree_hash-node,
  tree_hash-IsHash,
}
use settled.Core.Merkle.Mth.{mth-eq-tree_hash}
use settled.Core.Proof.{path_loop, path, inclusion_proof, verify_inclusion, ok}
use settled.Core.Proof.Rebuilds.{Rebuilds, leaf, left, right}
use settled.Core.Proof.Verify.{verify_inclusion_iff}

module _ (sha256 : Bytes → Hash) where
  -- The path that the code takes, and what it rebuilds.
  -- With a SHA-256 of 32 bytes, the siblings are hashes if the leaves are.
  abbrev pub Hashed : List Hash → List Hash → Type 0
  Hashed xs ps = ((t : Bytes) → IsHash (sha256 t)) → All IsHash xs → All IsHash ps

  abbrev PathOf : ℕ → List Hash → ℕ → Hash → Type 0
  PathOf f xs m x =
      (ps : List Hash) × (path_loop sha256 f xs m ≡ done ps)
      × Rebuilds sha256 m (length xs) x (reverse ps) (tree_hash sha256 xs)
      × Hashed xs ps

  reverse_snoc : (ps : List Hash) (h : Hash) → reverse (ps ++ h ∷ []) ≡ h ∷ reverse ps
  reverse_snoc ps h = reverse-append ps (h ∷ [])

  module _ (f m : ℕ) (xs : List Hash) (x : Hash) (big : 1 < length xs) (w : IsU64 (length xs)) where
    PathOf-left : m < split (length xs) → PathOf f (lower xs) m x → PathOf (suc f) xs m x
    unfolding path_loop
    PathOf-left at (ps, runs, b, k) =
        let (p, q, r, s) = parts_inside xs big in
        let (u, v) = split_inside (length xs) big in
        (
          ps ++ tree_hash sha256 (upper xs) ∷ [],
          rw (
            ==_ne (length xs) 1 (λ e. omega arith),
            k_usize-eq-split (length xs) big w,
            split_at_lem (split (length xs)) xs (omega arith),
            lt→ltb m (split (length xs)) at,
            runs,
            mth-eq-tree_hash sha256 (upper xs) r (omega arith),
          ),
          subst₂ (λ qs n. Rebuilds sha256 m (length xs) x qs n) (sym (reverse_snoc ps _))
              (sym (tree_hash-node sha256 xs big))
              (left m (length xs) x _ _ _ (reverse ps) big at
                (subst (λ n. Rebuilds sha256 m n x (reverse ps) (tree_hash sha256 (lower xs)))
                  (length-lower xs big) b)
                refl),
          λ long a. All-append IsHash ps _ (k long (All-take IsHash (split (length xs)) xs a)) (
            tree_hash-IsHash sha256 long (upper xs) r (All-drop IsHash (split (length xs)) xs a),
            tt,
          ),
        )

    PathOf-right :
        split (length xs) ≤ m
        → PathOf f (upper xs) (m - split (length xs)) x
        → PathOf (suc f) xs m x
    unfolding path_loop
    PathOf-right at (ps, runs, b, k) =
        let (p, q, r, s) = parts_inside xs big in
        let (u, v) = split_inside (length xs) big in
        (
          ps ++ tree_hash sha256 (lower xs) ∷ [],
          rw (
            ==_ne (length xs) 1 (λ e. omega arith),
            k_usize-eq-split (length xs) big w,
            split_at_lem (split (length xs)) xs (omega arith),
            ltb_ge m (split (length xs)) at,
            runs,
            mth-eq-tree_hash sha256 (lower xs) p (omega arith),
          ),
          subst₂ (λ qs n. Rebuilds sha256 m (length xs) x qs n) (sym (reverse_snoc ps _))
              (sym (tree_hash-node sha256 xs big))
              (right m (length xs) x _ _ _ (reverse ps) big at
                (subst
                  (λ n.
                    Rebuilds sha256 (m - split (length xs)) n x (reverse ps)
                      (tree_hash sha256 (upper xs)))
                  (omega (arith, length-upper xs big)) b)
                refl),
          λ long a. All-append IsHash ps _ (k long (All-drop IsHash (split (length xs)) xs a)) (
            tree_hash-IsHash sha256 long (lower xs) p (All-take IsHash (split (length xs)) xs a),
            tt,
          ),
        )

  -- On a list that holds `x` at index `m`, `path` does not panic, and its siblings rebuild the root.
  path_loop-Rebuilds :
      (f m : ℕ) (xs : List Hash) (x : Hash)
      → length xs ≤ f
      → IsU64 (length xs)
      → get_elem? xs m ≡ some x
      → PathOf f xs m x
  unfolding path_loop
  path_loop-Rebuilds f m [] x l w e = cc
  path_loop-Rebuilds zero m (y ∷ xs) x l w e = absurd (omega arith)
  path_loop-Rebuilds (suc f) zero (y ∷ []) x l w e =
      ([], refl, leaf 0 1 x _ refl refl (tree_hash_one sha256 y ∙ cc), λ long a. tt)
  path_loop-Rebuilds (suc f) (suc m) (y ∷ []) x l w e = cc
  path_loop-Rebuilds (suc f) m (y ∷ z ∷ xs) x l w e =
      let at = split (length (y ∷ z ∷ xs)) in
      let big : 1 < length (y ∷ z ∷ xs) = omega arith in
      let (p, q, r, s) = parts_inside (y ∷ z ∷ xs) big in
      elim (le-cases at m) [
        | inl right_side ↦ PathOf-right f m (y ∷ z ∷ xs) x big w right_side (
            path_loop-Rebuilds f (m - at) (upper (y ∷ z ∷ xs)) x (omega arith) (omega arith)
              (get_elem?-drop at m (y ∷ z ∷ xs) right_side ∙ e))
        | inr left_side ↦ PathOf-left f m (y ∷ z ∷ xs) x big w left_side (
            path_loop-Rebuilds f m (lower (y ∷ z ∷ xs)) x (omega arith) (omega arith)
              (get_elem?-take at m (y ∷ z ∷ xs) left_side ∙ e))
      ]

  pub inclusion_proof-Rebuilds :
      (m : ℕ) (xs : List Hash) (x : Hash)
      → IsU64 (length xs)
      → get_elem? xs m ≡ some x
      → (ps : List Hash) × (inclusion_proof sha256 xs m ≡ done (ok ps))
        × Rebuilds sha256 m (length xs) x (reverse ps) (tree_hash sha256 xs)
        × Hashed xs ps
  unfolding inclusion_proof path
  inclusion_proof-Rebuilds m xs x w e =
      let (ps, runs, b, k) = path_loop-Rebuilds (length xs) m xs x (omega arith) w e in
      (ps, rw (leb_gt (length xs) m (get_elem?-lt_length xs m x e), runs), b, k)

  -- For every leaf of a list whose length a `u64` holds, `inclusion_proof` returns a proof, `mth`
  -- a root, and `verify_inclusion` accepts the leaf with that proof against that root.
  pub inclusion_complete :
      (xs : List Hash) (m : ℕ) (x : Hash)
      → IsU64 (length xs)
      → get_elem? xs m ≡ some x
      → (proof : List Hash) × (root : Hash) × (inclusion_proof sha256 xs m ≡ done (ok proof))
        × (mth sha256 xs ≡ done (some root))
        × (verify_inclusion sha256 x m (length xs) proof root ≡ true)
  inclusion_complete xs m x w e =
      let (ps, runs, b, k) = inclusion_proof-Rebuilds m xs x w e in
      let inside = get_elem?-lt_length xs m x e in
      (
        ps,
        tree_hash sha256 xs,
        runs,
        mth-eq-tree_hash sha256 xs (omega arith) w,
        (verify_inclusion_iff sha256 x m (length xs) ps (tree_hash sha256 xs)).1 (inside, b),
      )
