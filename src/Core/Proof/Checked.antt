-- ===== src/Core/Proof/Checked.antt =====
-- `verify_consistency`: it always answers, and what a yes means.
use settled.Prelude.{
  ℕ, ◌≤◌, ◌<◌, List, [], ◌∷◌, some, Bool, true, false, ◌≡◌, ◌≢◌, ◌⊎◌, inl, inr, refl, arith, length,
  take_all, take, length-take, All, le-cases, eq-cases, ltb_ge, ==_iff, ==_ne, done, ◌==◌, ◌&&◌,
}
use mathlib.Core.Path.{subst₃}
use settled.Core.Hash.{Bytes, Hash, IsHash, bytes_eq}
use settled.Core.Hash.Collisions.{Collision, bytes_eq_iff}
use settled.Core.Split.{IsU64}
use settled.Core.Merkle.{mth, tree_hash}
use settled.Core.Merkle.Mth.{mth-eq-tree_hash}
use settled.Core.Proof.{verify_consistency, consistency_end}
use settled.Core.Proof.Walks.{Walks, Found, Ends, fails, gives, verify_subproof_loop-Ends}
use settled.Core.Proof.History.{Walks-tree_hash}

-- A yes of the end: the walk used up the proof and gave the two roots.
end-true :
    (lo ln old new : Hash) (rest : List Hash)
    → consistency_end (some (lo, ln, rest)) old new ≡ true
    → (lo ≡ old) × (ln ≡ new) × (rest ≡ [])
unfolding consistency_end
end-true lo ln old new [] h =
    (ground (arith, bytes_eq_iff lo old), ground (arith, bytes_eq_iff ln new), refl)
end-true lo ln old new (x ∷ rest) h = absurd (ground arith)

module _ (sha256 : Bytes → Hash) (m n : ℕ) (proof : List Hash) (old new : Hash) where
  -- What a yes of the end shows.
  end-Walks :
      (o : Found sha256 old)
      → Ends sha256 old m n proof true o
      → consistency_end o old new ≡ true
      → Walks sha256 old m n proof true old new []
  unfolding consistency_end
  end-Walks o (fails _ e) h = absurd (cc (rw e at h))
  end-Walks o (gives _ lo ln rest e v) h =
      let (p, q, r) = end-true lo ln old new rest (rw e at h) in
      subst₃ (Walks sha256 old m n proof true) p q r v

  same_sizes :
      m ≡ n
      → verify_consistency sha256 m n proof old new ≡ done (length proof == 0 && bytes_eq old new)
  unfolding verify_consistency
  same_sizes e = rw ((==_iff m n).1 e)

  bad_sizes : m ≢ n → (m ≡ 0) ⊎ (n < m) → verify_consistency sha256 m n proof old new ≡ done false
  unfolding verify_consistency
  bad_sizes ne (inl z) = ground (arith)
  bad_sizes ne (inr big) = ground (arith)

  good_sizes :
      0 < m
      → m < n
      → IsU64 n
      → (o : Found sha256 old) × (verify_consistency sha256 m n proof old new
          ≡ done (consistency_end o old new))
        × Ends sha256 old m n proof true o
  unfolding verify_consistency
  good_sizes pos fits w =
      let (o, runs, ends) =
        verify_subproof_loop-Ends sha256 old n m n proof true (omega arith) pos (omega arith) w in
      (
        o,
        rw (
          ==_ne m n (λ z. omega arith),
          ==_ne m 0 (λ z. omega arith),
          ltb_ge n m (omega arith),
          runs,
        ),
        ends,
      )

  -- Whatever sizes that a `u64` holds, whatever proof and roots: the verifier answers.
  pub verify_consistency_total :
      IsU64 n → (b : Bool) × (verify_consistency sha256 m n proof old new ≡ done b)
  verify_consistency_total w = elim (eq-cases m n) [
    | inl e ↦ (length proof == 0 && bytes_eq old new, same_sizes e)
    | inr ne ↦ elim (eq-cases m 0) [
      | inl z ↦ (false, bad_sizes ne (inl z))
      | inr pos ↦ elim (le-cases n m) [
        | inl big ↦ (false, bad_sizes ne (inr (omega arith)))
        | inr fits ↦
            let (o, runs, ends) = good_sizes (omega arith) fits w in
            (consistency_end o old new, runs)
      ]
    ]
  ]

  -- A yes: equal sizes and roots, or sizes in order and a walk over the whole proof.
  verify_consistency-true :
      IsU64 n
      → verify_consistency sha256 m n proof old new ≡ done true
      → ((m ≡ n) × (old ≡ new)) ⊎ ((0 < m) × (m < n) × Walks sha256 old m n proof true old new [])
  verify_consistency-true w h = elim (eq-cases m n) [
    | inl e ↦ inl (e, ground (arith, same_sizes e, bytes_eq_iff old new))
    | inr ne ↦ elim (eq-cases m 0) [
      | inl z ↦ absurd (cc (bad_sizes ne (inl z)))
      | inr pos ↦ elim (le-cases n m) [
        | inl big ↦ absurd (cc (bad_sizes ne (inr (omega arith))))
        | inr fits ↦
            let (o, runs, ends) = good_sizes (omega arith) fits w in
            inr (omega arith, fits, end-Walks o ends (cc))
      ]
    ]
  ]

-- SHA-256 returns 32 bytes.
module _ (sha256 : Bytes → Hash) (sha256_length : (t : Bytes) → IsHash (sha256 t)) where
  -- For hashes and digests of 32 bytes, fewer than 2^64 leaves, and the root that `mth` gives for
  -- them: if the verifier accepts a proof against the root of `xs`, the old root is the root of the first
  -- `m` leaves of `xs`; otherwise two texts with one SHA-256 digest are at hand.
  pub consistency_sound :
      (xs : List Hash) (m : ℕ) (old new : Hash) (proof : List Hash)
      → IsU64 (length xs)
      → All IsHash xs
      → IsHash old
      → All IsHash proof
      → mth sha256 xs ≡ done (some new)
      → verify_consistency sha256 m (length xs) proof old new ≡ done true
      → ((m ≤ length xs) × (mth sha256 (take m xs) ≡ done (some old))) ⊎ Collision sha256
  consistency_sound xs m old new proof w hs o a r v =
      elim (verify_consistency-true sha256 m (length xs) proof old new w v) [
        | inl (e, same) ↦ inl (omega arith, rw (take_all m xs (omega arith), same) r)
        | inr (pos, fits, walk) ↦
            let at_root : new ≡ tree_hash sha256 xs =
              cc (mth-eq-tree_hash sha256 xs (omega arith) w) in
            elim (Walks-tree_hash sha256 sha256_length walk xs refl pos (omega arith) at_root hs o
              a) [
                | inl e ↦ inl (
                  omega arith,
                  rw e (
                      mth-eq-tree_hash sha256 (take m xs) (omega (arith, length-take m xs))
                        (omega (arith, length-take m xs))),
                )
                | inr c ↦ inr c
              ]
      ]
