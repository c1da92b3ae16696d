-- ===== src/Core/Proof/Consistency.antt =====
-- Consistency proofs: a generated proof is accepted.
use mathlib.Core.Path.{subst, subst₂}
use settled.Prelude.{
  ℕ, zero, suc, ◌-◌, ◌≤◌, ◌<◌, List, [], ◌∷◌, ◌++◌, append-nil, append_assoc, some, Bool, true,
  false, ◌≡◌, ◌≢◌, inl, inr, refl, ap, sym, ◌∙◌, arith, length, length-take, take, take-take,
  take_all, take_split, le-cases, eq-cases, le→leb, leb_gt, ltb_ge, ==_iff, ==_ne, done,
  split_at_lem,
}
use settled.Core.Hash.{Bytes, Hash, node_hash}
use settled.Core.Hash.Collisions.{bytes_eq_refl}
use settled.Core.Split.{IsU64, split}
use settled.Core.Split.Bounds.{k_usize-eq-split, split_inside, split_bounds}
use settled.Core.Merkle.{mth, tree_hash}
use settled.Core.Merkle.Spec.{
  lower, upper, length-lower, length-upper, parts_inside, tree_hash-node, tree_hash-append,
}
use settled.Core.Merkle.Mth.{mth-eq-tree_hash}
use settled.Core.Proof.{
  subproof_loop, subproof, consistency_proof, verify_consistency, consistency_end, ok,
}
use settled.Core.Proof.Walks.{Walks, shared, given, left, right, Walks-verify_subproof_loop}

module _ (sha256 : Bytes → Hash) where
  -- The old tree, when it reaches into the upper part: the lower part and a part of the upper.
  pub tree_hash-take :
      (xs : List Hash) (m : ℕ)
      → 1 < length xs
      → split (length xs) < m
      → m ≤ length xs
      → node_hash sha256
          (tree_hash sha256 (lower xs))
          (tree_hash sha256 (take (m - split (length xs)) (upper xs)))
        ≡ tree_hash sha256 (take m xs)
  tree_hash-take xs m big at fits =
      let (p, e, lo, hi) = split_bounds (length xs) big in
      sym (
        ap (tree_hash sha256) (take_split (split (length xs)) m xs (omega arith) (omega arith))
        ∙ tree_hash-append sha256 p (lower xs) (take (m - split (length xs)) (upper xs))
            (length-lower xs big ∙ e)
            (omega (arith, length-upper xs big, length-take (m - split (length xs)) (upper xs)))
            (omega (arith, length-upper xs big, length-take (m - split (length xs)) (upper xs))))

  -- What `subproof` returns, and the walk that it makes.
  abbrev Proves : ℕ → List Hash → ℕ → Bool → Type 0
  Proves f xs m b =
      (ps : List Hash) × (subproof_loop sha256 f xs m b ≡ done ps)
      × ((old : Hash) (rest : List Hash)
          → (b ≡ true → old ≡ tree_hash sha256 (take m xs))
          → Walks sha256 old m (length xs) (ps ++ rest) b (tree_hash sha256 (take m xs))
              (tree_hash sha256 xs) rest)

  module _ (f m : ℕ) (xs : List Hash) (w : IsU64 (length xs)) where
    Proves-same : (b : Bool) → 0 < m → m ≡ length xs → Proves (suc f) xs m b
    unfolding subproof_loop
    Proves-same true pos e = (
      [],
      rw ((==_iff m (length xs)).1 e),
      λ old rest h.
          shared m (length xs) rest rest true _ _ e refl (sym (h refl))
            (ap (tree_hash sha256) (sym (take_all m xs (omega arith))) ∙ sym (h refl)) refl,
    )
    Proves-same false pos e = (
      tree_hash sha256 xs ∷ [],
      rw ((==_iff m (length xs)).1 e, mth-eq-tree_hash sha256 xs (omega arith) w),
      λ old rest h.
          given m (length xs) (tree_hash sha256 xs ∷ rest) rest false _ _ e refl
            (ap (tree_hash sha256) (take_all m xs (omega arith))) refl,
    )

    Proves-left :
        (b : Bool)
        → m ≢ length xs
        → 1 < length xs
        → m ≤ split (length xs)
        → Proves f (lower xs) m b
        → Proves (suc f) xs m b
    unfolding subproof_loop
    Proves-left b ne big at (ps, runs, walk) =
        let (p, q, r, s) = parts_inside xs big in
        let (u, v) = split_inside (length xs) big in
        let same : take m (lower xs) ≡ take m xs = take-take m (split (length xs)) xs at in
        (
          ps ++ tree_hash sha256 (upper xs) ∷ [],
          rw (
            ==_ne m (length xs) ne,
            k_usize-eq-split (length xs) big w,
            split_at_lem (split (length xs)) xs (omega arith),
            le→leb m (split (length xs)) at,
            runs,
            mth-eq-tree_hash sha256 (upper xs) r (omega arith),
          ),
          λ old rest h.
              left m (length xs) _ rest b _ _ (tree_hash sha256 (lower xs))
                (tree_hash sha256 (upper xs)) ne at
                (subst₂
                  (λ n it.
                    Walks sha256 old m n it b (tree_hash sha256 (take m xs))
                      (tree_hash sha256 (lower xs)) (tree_hash sha256 (upper xs) ∷ rest))
                  (length-lower xs big)
                  (sym (append_assoc ps (tree_hash sha256 (upper xs) ∷ []) rest))
                  (subst
                    (λ t.
                      Walks sha256 old m (length (lower xs))
                        (ps ++ tree_hash sha256 (upper xs) ∷ rest) b (tree_hash sha256 t)
                        (tree_hash sha256 (lower xs)) (tree_hash sha256 (upper xs) ∷ rest))
                    same
                    (walk old (tree_hash sha256 (upper xs) ∷ rest)
                      (λ e. h e ∙ ap (tree_hash sha256) (sym same)))))
                (tree_hash-node sha256 xs big),
        )

    Proves-right :
        (b : Bool)
        → m ≢ length xs
        → 1 < length xs
        → split (length xs) < m
        → m ≤ length xs
        → Proves f (upper xs) (m - split (length xs)) false
        → Proves (suc f) xs m b
    unfolding subproof_loop
    Proves-right b ne big at fits (ps, runs, walk) =
        let (p, q, r, s) = parts_inside xs big in
        let (u, v) = split_inside (length xs) big in
        (
          ps ++ tree_hash sha256 (lower xs) ∷ [],
          rw (
            ==_ne m (length xs) ne,
            k_usize-eq-split (length xs) big w,
            split_at_lem (split (length xs)) xs (omega arith),
            leb_gt m (split (length xs)) at,
            runs,
            mth-eq-tree_hash sha256 (lower xs) p (omega arith),
          ),
          λ old rest h.
              right m (length xs) _ rest b _ _
                (tree_hash sha256 (take (m - split (length xs)) (upper xs)))
                (tree_hash sha256 (upper xs)) (tree_hash sha256 (lower xs)) ne at
                (subst₂
                  (λ n it.
                    Walks sha256 old (m - split (length xs)) n it false
                      (tree_hash sha256 (take (m - split (length xs)) (upper xs)))
                      (tree_hash sha256 (upper xs)) (tree_hash sha256 (lower xs) ∷ rest))
                  (omega (arith, length-upper xs big))
                  (sym (append_assoc ps (tree_hash sha256 (lower xs) ∷ []) rest))
                  (walk old (tree_hash sha256 (lower xs) ∷ rest) (λ e. cc)))
                (sym (tree_hash-take xs m big at fits)) (tree_hash-node sha256 xs big),
        )

  subproof_loop-Proves :
      (f m : ℕ) (xs : List Hash) (b : Bool)
      → length xs ≤ f
      → 0 < m
      → m ≤ length xs
      → IsU64 (length xs)
      → Proves f xs m b
  subproof_loop-Proves zero m xs b l pos fits w = absurd (omega arith)
  subproof_loop-Proves (suc f) m xs b l pos fits w = elim (eq-cases m (length xs)) [
    | inl e ↦ Proves-same f m xs w b pos e
    | inr ne ↦
        let big : 1 < length xs = omega arith in
        let (p, q, r, s) = parts_inside xs big in
        let below = length-lower xs big in
        let above = length-upper xs big in
        elim (le-cases m (split (length xs))) [
          | inl at ↦
              Proves-left f m xs w b ne big at (
                subproof_loop-Proves f m (lower xs) b (omega arith) pos (omega arith) (omega arith))
          | inr at ↦ Proves-right f m xs w b ne big at fits (
              subproof_loop-Proves f (m - split (length xs)) (upper xs) false (omega arith)
                (omega arith) (omega arith) (omega arith))
        ]
  ]

  abbrev Accepted : List Hash → ℕ → Type 0
  Accepted xs m =
      (proof : List Hash) × (consistency_proof sha256 xs m ≡ done (ok proof))
      × (verify_consistency sha256 m (length xs) proof (tree_hash sha256 (take m xs))
            (tree_hash sha256 xs)
          ≡ done true)

  Accepted-same : (xs : List Hash) (m : ℕ) → 0 < m → m ≡ length xs → Accepted xs m
  unfolding consistency_proof verify_consistency
  Accepted-same xs m pos e = (
    [],
    rw (
      ==_ne m 0 (λ z. omega arith),
      ltb_ge (length xs) m (omega arith),
      (==_iff m (length xs)).1 e,
    ),
    rw (
      (==_iff m (length xs)).1 e,
      take_all m xs (omega arith),
      bytes_eq_refl (tree_hash sha256 xs),
    ),
  )

  Accepted-smaller :
      (xs : List Hash) (m : ℕ) → IsU64 (length xs) → 0 < m → m < length xs → Accepted xs m
  unfolding consistency_proof subproof verify_consistency consistency_end
  Accepted-smaller xs m w pos fits =
      let (ps, runs, walk) =
        subproof_loop-Proves (length xs) m xs true (omega arith) pos (omega arith) w in
      let walked =
        Walks-verify_subproof_loop sha256 (tree_hash sha256 (take m xs))
          (walk (tree_hash sha256 (take m xs)) [] (λ e. refl)) (length xs) (omega arith) pos
          (omega arith) w in
      (
        ps,
        rw (
          ==_ne m 0 (λ z. omega arith),
          ltb_ge (length xs) m (omega arith),
          ==_ne m (length xs) (λ z. omega arith),
          runs,
        ),
        rw (
          ==_ne m (length xs) (λ z. omega arith),
          ==_ne m 0 (λ z. omega arith),
          ltb_ge (length xs) m (omega arith),
          rw append-nil at walked,
          bytes_eq_refl (tree_hash sha256 (take m xs)),
          bytes_eq_refl (tree_hash sha256 xs),
        ),
      )

  -- For every size from 1 to the length of a list that a `u64` counts, `consistency_proof` returns a
  -- proof, `mth` the roots of the prefix and of the list, and `verify_consistency` accepts them.
  pub consistency_complete :
      (xs : List Hash) (m : ℕ)
      → IsU64 (length xs)
      → 0 < m
      → m ≤ length xs
      → (proof : List Hash) × (old_root : Hash) × (new_root : Hash) × (consistency_proof sha256 xs m
          ≡ done (ok proof))
        × (mth sha256 (take m xs) ≡ done (some old_root))
        × (mth sha256 xs ≡ done (some new_root))
        × (verify_consistency sha256 m (length xs) proof old_root new_root ≡ done true)
  consistency_complete xs m w pos fits =
      let (proof, made, accepted) = accepts in
      (
        proof,
        tree_hash sha256 (take m xs),
        tree_hash sha256 xs,
        made,
        mth-eq-tree_hash sha256 (take m xs) (omega (arith, length-take m xs))
            (omega (arith, length-take m xs)),
        mth-eq-tree_hash sha256 xs (omega arith) w,
        accepted,
      )
    where
      accepts : Accepted xs m
      accepts = elim (eq-cases m (length xs)) [
        | inl e ↦ Accepted-same xs m pos e
        | inr ne ↦ Accepted-smaller xs m w pos (omega arith)
      ]
