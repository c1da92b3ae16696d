-- ===== src/Core/Merkle/Tree.antt =====
-- `MerkleTree`: appending never panics, and the root is the tree hash of the leaves appended.
use settled.Prelude.{
  ℕ, zero, suc, ◌+◌, ◌/◌, ◌%◌, ◌^◌, ◌<◌, List, [], ◌∷◌, ◌++◌, append-nil, append_assoc, some, ◌≡◌,
  refl, ap, ap₂, sym, ◌∙◌, length, length-append, get_elem?, set, replicate, arith, lt→ltb, ltb_ge,
  ==_iff, ==_ne, done,
}
use mathlib.Core.Path.{subst, subst₂}
use native.Mathlib.Nat.{mod-eq_of_lt}
use settled.Core.Hash.{Bytes, Hash, zero_hash, node_hash}
use settled.Core.Split.{IsU64}
use settled.Core.Merkle.{MerkleTree, new, clear_below, place, carry_loop, append, root, tree_hash}
use settled.Core.Merkle.Spec.{tree_hash_one}
use settled.Core.Merkle.Frontier.{
  push_carry, push_carry_odd, Covers, top, clear, occupied, shifted, Covers-push_carry,
  root_loop-none,
}

module _ {ℓ} {A : Type ℓ} where
  get_elem?-append : (xs ys : List A) (y : A) → get_elem? (xs ++ y ∷ ys) (length xs) ≡ some y
  get_elem?-append [] ys y = refl
  get_elem?-append (x ∷ xs) ys y = get_elem?-append xs ys y

  set-append : (xs ys : List A) (y z : A) → set (xs ++ y ∷ ys) (length xs) z ≡ xs ++ z ∷ ys
  set-append [] ys y z = refl
  set-append (x ∷ xs) ys y z = ap (◌∷◌ x) (set-append xs ys y z)

  replicate-append :
      (n : ℕ) (a : A) (xs : List A) → replicate (suc n) a ++ xs ≡ replicate n a ++ a ∷ xs
  replicate-append zero a xs = refl
  replicate-append (suc n) a xs = ap (◌∷◌ a) (replicate-append n a xs)

clear_below-append :
    (pre fs : List Hash)
    → clear_below (length pre) (pre ++ fs) ≡ done (replicate (length pre) zero_hash ++ fs)
unfolding clear_below
clear_below-append [] fs = refl
clear_below-append (p ∷ pre) fs = rw (clear_below-append pre fs)

-- At the end of the frontier the hash is pushed, inside it it is stored.
place_end :
    (pre : List Hash) (h : Hash)
    → place pre (length pre) h ≡ done (replicate (length pre) zero_hash ++ h ∷ [])
unfolding place
place_end pre h =
    rw (ltb_ge (length pre) (length pre) (omega arith)) (clear_below-append pre (h ∷ []))

place_inside :
    (pre fs : List Hash) (f h : Hash)
    → place (pre ++ f ∷ fs) (length pre) h ≡ done (replicate (length pre) zero_hash ++ h ∷ fs)
unfolding place
place_inside pre fs f h =
    rw
      (
        lt→ltb (length pre) (length (pre ++ f ∷ fs)) (omega (arith, length-append pre (f ∷ fs))),
        set-append pre fs f h,
      )
      (clear_below-append pre (h ∷ fs))

length-snoc : (pre : List Hash) (f : Hash) → length (pre ++ f ∷ []) ≡ suc (length pre)
length-snoc pre f = omega (arith, length-append pre (f ∷ []))

length-snoc_add : (pre : List Hash) (f : Hash) → length (pre ++ f ∷ []) ≡ length pre + 1
length-snoc_add pre f = omega (arith, length-append pre (f ∷ []))

shifted_snoc :
    (size : ℕ) (pre : List Hash) (f : Hash)
    → size / 2 ^ length (pre ++ f ∷ []) ≡ size / 2 ^ length pre / 2
shifted_snoc size pre f =
    ap (λ (t : ℕ). size / 2 ^ t) (length-snoc pre f) ∙ shifted size (length pre)

module _ (sha256 : Bytes → Hash) where
  -- From the level that `pre` reaches up: where the loop stops, and what is placed there.
  abbrev Carried : ℕ → ℕ → List Hash → List Hash → Hash → Type 0
  Carried fuel size pre fs h =
      (level : ℕ) × (hash : Hash) × (carry_loop sha256 fuel size (pre ++ fs) h (length pre)
        ≡ done (level, hash))
      × (place (pre ++ fs) level hash
          ≡ done
              (replicate (length pre) zero_hash ++ push_carry sha256 fs (size / 2 ^ length pre) h))

  -- A node is there: it is combined, and the loop goes on one level up.
  Carried-occupied :
      (fuel size : ℕ) (pre gs : List Hash) (f h : Hash)
      → size / 2 ^ length pre % 2 ≡ 1
      → Carried fuel size (pre ++ f ∷ []) gs (node_hash sha256 f h)
      → Carried (suc fuel) size pre (f ∷ gs) h
  unfolding carry_loop
  Carried-occupied fuel size pre gs f h b (level, hash, runs, places) = (
    level,
    hash,
    rw
        (
          (==_iff (size / 2 ^ length pre % 2) 1).1 b,
          get_elem?-append pre gs f,
          ← append_assoc pre (f ∷ []) gs,
          ← length-snoc_add pre f,
        )
        runs,
    rw (← append_assoc pre (f ∷ []) gs) places
        ∙ ap done (
            ap₂ (λ n q. replicate n zero_hash ++ push_carry sha256 gs q (node_hash sha256 f h))
              (length-snoc pre f) (shifted_snoc size pre f)
            ∙ replicate-append (length pre) zero_hash _
            ∙ ap (λ fs. replicate (length pre) zero_hash ++ fs)
                (sym (push_carry_odd sha256 f gs (size / 2 ^ length pre) h b))),
  )

  carry_loop_lem :
      (fuel size : ℕ) (pre fs xs : List Hash) (h : Hash)
      → length fs < fuel
      → Covers sha256 fs (length pre) (size / 2 ^ length pre) xs
      → Carried fuel size pre fs h
  unfolding carry_loop push_carry
  carry_loop_lem zero size pre fs xs h l c = absurd (omega arith)
  carry_loop_lem (suc fuel) size pre fs xs h l (top _ _ _ e n) = (
    length pre,
    h,
    rw (==_ne (size / 2 ^ length pre % 2) 1 (λ h. omega arith)),
    rw append-nil (place_end pre h),
  )
  carry_loop_lem (suc fuel) size pre fs xs h l (clear f gs _ _ _ b c) = (
    length pre,
    h,
    rw (==_ne (size / 2 ^ length pre % 2) 1 (λ h. omega arith)),
    rw (==_ne (size / 2 ^ length pre % 2) 1 (λ h. omega arith)) (place_inside pre gs f h),
  )
  carry_loop_lem (suc fuel) size pre fs xs h l (occupied f gs _ _ _ ys ws b c w d e) =
      Carried-occupied fuel size pre gs f h b (
        carry_loop_lem fuel size (pre ++ f ∷ []) gs ys (node_hash sha256 f h) (omega arith) (
          subst₂ (λ i q. Covers sha256 gs i q ys) (sym (length-snoc pre f))
            (sym (shifted_snoc size pre f)) c))

  -- The tree that appending the leaves `xs` leaves: its size, and a frontier that covers them.
  pub record IsTreeOf (xs : List Hash) (t : MerkleTree) : Type 0 where
    pub sized : t.size ≡ length xs
    pub covers : Covers sha256 t.frontier 0 (length xs) xs

  pub IsTreeOf-new : IsTreeOf [] new
  unfolding new
  IsTreeOf-new = record { sized = refl; covers = top 0 0 [] refl refl }

  -- `append` on the tree of the leaves `xs`, while a `u64` holds the new size, does not panic; it
  -- returns the number of leaves before, and leaves the tree of `xs` and the new leaf.
  pub append-IsTreeOf :
      (xs : List Hash) (t : MerkleTree) (lh : Hash)
      → IsTreeOf xs t
      → IsU64 (length xs + 1)
      → (t' : MerkleTree) × (append sha256 t lh ≡ done (length xs, t'))
        × IsTreeOf (xs ++ lh ∷ []) t'
  unfolding append
  append-IsTreeOf xs t lh v w =
      let start : length xs ≡ t.size / 2 ^ 0 = omega (arith, v.sized) in
      let (level, hash, runs, places) =
        carry_loop_lem (suc (length t.frontier)) t.size [] t.frontier xs lh (omega arith)
          (subst (λ q. Covers sha256 t.frontier 0 q xs) start v.covers) in
      let total : length xs + 1 ≡ length (xs ++ lh ∷ []) =
        omega (arith, length-append xs (lh ∷ [])) in
      let frontier = push_carry sha256 t.frontier (length xs) lh in
      let covers =
        subst₂
          (λ h n. Covers sha256 (push_carry sha256 t.frontier (length xs) h) 0 n (xs ++ lh ∷ []))
          (tree_hash_one sha256 lh) total
          (Covers-push_carry sha256 t.frontier 0 (length xs) xs (lh ∷ []) v.covers refl) in
      let fits : (length xs + 1) % 2 ^ 64 ≡ length xs + 1 = mod-eq_of_lt w in
      (
        record { frontier = frontier; size = length xs + 1 },
        rw (runs, places, ← start, v.sized, fits),
        record { sized = total; covers = covers },
      )

  pub root-IsTreeOf :
      (xs : List Hash) (t : MerkleTree)
      → IsTreeOf xs t
      → 0 < length xs
      → root sha256 t ≡ some (tree_hash sha256 xs)
  unfolding root
  root-IsTreeOf xs t v h =
      rw (==_ne t.size 0 (λ e. omega (arith, v.sized))) (
        root_loop-none sha256 t.size 0 (length xs) t.frontier xs v.covers (omega (arith, v.sized))
          h)
