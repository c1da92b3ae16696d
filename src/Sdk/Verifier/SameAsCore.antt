-- ===== src/Sdk/Verifier/SameAsCore.antt =====
-- The client's verifier answers as the server's does.
use settled.Prelude.{
  ℕ, zero, suc, ◌+◌, ◌-◌, ◌/◌, ◌%◌, ◌≤◌, ◌<◌, List, [], ◌∷◌, Option, none, some, Bool, true, false,
  ◌≡◌, ◌≢◌, ◌⊎◌, sym, ◌^◌, panic, inl, inr, refl, arith, length, length-drop, drop, ◌>>=◌,
  get_elem?, Bool-cases, le-cases, eq-cases, le→leb, leb_gt, ltb_ge, lt→ltb, ==_iff, ==_ne, Run,
  done, not, ◌||◌, ◌==◌,
}
use settled.Core.Hash.{Bytes, Hash, bytes_eq}
use settled.Core.Hash
use settled.Core.Split.{IsU64, split}
use settled.Core.Split.Bounds.{
  k_usize-eq-split, sdk_split-eq-split, sdk_split-endless, split_inside,
}
use settled.Core.Proof.Checked.{verify_consistency_total}
use settled.Core.Proof
use settled.Sdk.Verifier.{
  strip_loop, next, inclusion_loop, verify_inclusion, verify_subproof_loop, consistency_end,
  verify_consistency, node_hash, try,
}

strip_loop-eq : (f a b : ℕ) → strip_loop f a b ≡ Proof.strip_loop f a b
unfolding strip_loop Proof.strip_loop
strip_loop-eq zero a b = refl
strip_loop-eq (suc f) a b = rw (strip_loop-eq f (a / 2) (b / 2))

-- At a position of the proof: the hash there and the next position, or the end for both.
data NextAgrees (proof : List Hash) (i : ℕ) : Type 0 where
  ended : drop i proof ≡ [] → next proof i ≡ none → NextAgrees proof i
  one :
      (h : Hash)
      → drop i proof ≡ h ∷ drop (i + 1) proof
      → next proof i ≡ some (h, i + 1)
      → i + 1 ≤ length proof
      → NextAgrees proof i

drop_at :
    (proof : List Hash) (i : ℕ)
    → i < length proof
    → (h : Hash) × (get_elem? proof i ≡ some h) × (drop i proof ≡ h ∷ drop (i + 1) proof)
drop_at [] i h = absurd (omega arith)
drop_at (x ∷ proof) zero h = (x, refl, refl)
drop_at (x ∷ proof) (suc i) h =
    let (y, there, rest) = drop_at proof i (omega arith) in
    let e : suc i + 1 ≡ suc (i + 1) = omega arith in (y, there, rw e rest)

drop_end : (proof : List Hash) (i : ℕ) → length proof ≤ i → drop i proof ≡ []
drop_end [] zero h = refl
drop_end [] (suc i) h = refl
drop_end (x ∷ proof) zero h = absurd (omega arith)
drop_end (x ∷ proof) (suc i) h = drop_end proof i (omega arith)

next_agrees : (proof : List Hash) (i : ℕ) → NextAgrees proof i
unfolding next
next_agrees proof i = elim (le-cases (length proof) i) [
  | inl past ↦ ended (drop_end proof i past) (rw (le→leb (length proof) i past))
  | inr inside ↦
      let (h, there, rest) = drop_at proof i inside in
      one h rest (rw (leb_gt (length proof) i inside, there)) (omega arith)
]

module _ (sha256 : Bytes → Hash) where
  inclusion_loop-eq :
      (proof : List Hash) (fn sn : ℕ) (r root : Hash)
      → inclusion_loop sha256 proof fn sn r root
        ≡ Proof.inclusion_end (Proof.inclusion_loop sha256 proof fn sn r) root
  unfolding inclusion_loop Proof.inclusion_loop Proof.inclusion_step Proof.inclusion_end Proof.strip
      node_hash Hash.node_hash
  inclusion_loop-eq [] fn sn r root = refl
  inclusion_loop-eq (step ∷ proof) fn sn r root = elim (Bool-cases (sn == 0)) [
    | inl z ↦ rw z
    | inr nz ↦ elim (Bool-cases (not (fn % 2 == 0) || fn == sn)) [
      | inl right ↦ rw (nz, right, ← strip_loop-eq fn fn sn) (inclusion_loop-eq proof _ _ _ root)
      | inr left ↦ rw (nz, left) (inclusion_loop-eq proof _ _ _ root)
    ]
  ]

  -- For every input the client's `verify_inclusion` gives the server's answer.
  pub verify_inclusion-eq_core :
      (lh : Hash) (m n : ℕ) (proof : List Hash) (root : Hash)
      → verify_inclusion sha256 lh m n proof root ≡ Proof.verify_inclusion sha256 lh m n proof root
  unfolding verify_inclusion Proof.verify_inclusion
  verify_inclusion-eq_core lh m n proof root = rw inclusion_loop-eq

  module _ (proof : List Hash) (old : Hash) where
    -- Both fail, or both give the same hashes and stand at the same place of the proof.
    data Agree (c : Run (Option (Hash × Hash × List Hash))) (s : Run (Option (Hash × Hash × ℕ)))
        : Type 0 where
      neither : c ≡ done none → s ≡ done none → Agree c s
      both :
          (lo ln : Hash) (i : ℕ)
          → i ≤ length proof
          → c ≡ done (some (lo, ln, drop i proof))
          → s ≡ done (some (lo, ln, i))
          → Agree c s

    abbrev Agrees : ℕ → ℕ → ℕ → ℕ → Bool → Type 0
    Agrees f m n i b =
        Agree (Proof.verify_subproof_loop sha256 f m n old (drop i proof) b)
          (verify_subproof_loop sha256 f m n old proof i b)

    Agrees-same : (f m n i : ℕ) (b : Bool) → m ≡ n → i ≤ length proof → Agrees (suc f) m n i b
    unfolding verify_subproof_loop Proof.verify_subproof_loop try
    Agrees-same f m n i true e l = both old old i l (rw ((==_iff m n).1 e)) (rw ((==_iff m n).1 e))
    Agrees-same f m n i false e l = elim (next_agrees proof i) [
      | ended d x ↦ neither (rw ((==_iff m n).1 e, d)) (rw ((==_iff m n).1 e, x))
      | one h d x l' ↦ both h h (i + 1) l' (rw ((==_iff m n).1 e, d)) (rw ((==_iff m n).1 e, x))
    ]

    module _ (f m n i : ℕ) (b : Bool) (ne : m ≢ n) (big : 1 < n) (most : n ≤ 2 ^ 63) where
      w : IsU64 n
      w = omega arith

      Agrees-left : m ≤ split n → Agrees f m (split n) i b → Agrees (suc f) m n i b
      unfolding verify_subproof_loop Proof.verify_subproof_loop try node_hash Hash.node_hash
      Agrees-left at (neither c s) =
          neither (rw (==_ne m n ne, k_usize-eq-split n big w, le→leb m (split n) at, c))
            (rw (==_ne m n ne, sdk_split-eq-split n big most, le→leb m (split n) at, s))
      Agrees-left at (both lo ln j l c s) = elim (next_agrees proof j) [
        | ended d x ↦
            neither (rw (==_ne m n ne, k_usize-eq-split n big w, le→leb m (split n) at, c, d))
              (rw (==_ne m n ne, sdk_split-eq-split n big most, le→leb m (split n) at, s, x))
        | one h d x l' ↦
            both lo (Hash.node_hash sha256 ln h) (j + 1) l'
              (rw (==_ne m n ne, k_usize-eq-split n big w, le→leb m (split n) at, c, d))
              (rw (==_ne m n ne, sdk_split-eq-split n big most, le→leb m (split n) at, s, x))
      ]

      Agrees-right :
          split n < m → Agrees f (m - split n) (n - split n) i false → Agrees (suc f) m n i b
      unfolding verify_subproof_loop Proof.verify_subproof_loop try node_hash Hash.node_hash
      Agrees-right at (neither c s) =
          neither (rw (==_ne m n ne, k_usize-eq-split n big w, leb_gt m (split n) at, c))
            (rw (==_ne m n ne, sdk_split-eq-split n big most, leb_gt m (split n) at, s))
      Agrees-right at (both lo ln j l c s) = elim (next_agrees proof j) [
        | ended d x ↦
            neither (rw (==_ne m n ne, k_usize-eq-split n big w, leb_gt m (split n) at, c, d))
              (rw (==_ne m n ne, sdk_split-eq-split n big most, leb_gt m (split n) at, s, x))
        | one h d x l' ↦
            both (Hash.node_hash sha256 h lo) (Hash.node_hash sha256 h ln) (j + 1) l'
              (rw (==_ne m n ne, k_usize-eq-split n big w, leb_gt m (split n) at, c, d))
              (rw (==_ne m n ne, sdk_split-eq-split n big most, leb_gt m (split n) at, s, x))
      ]

    verify_subproof_loop-Agrees :
        (f m n i : ℕ) (b : Bool)
        → n ≤ f
        → 0 < m
        → m ≤ n
        → n ≤ 2 ^ 63
        → i ≤ length proof
        → Agrees f m n i b
    verify_subproof_loop-Agrees zero m n i b l pos fits w here = absurd (omega arith)
    verify_subproof_loop-Agrees (suc f) m n i b l pos fits w here = elim (eq-cases m n) [
      | inl e ↦ Agrees-same f m n i b e here
      | inr ne ↦
          let big : 1 < n = omega arith in
          let (u, v) = split_inside n big in
          elim (le-cases m (split n)) [
            | inl at ↦ Agrees-left f m n i b ne big w at (
                verify_subproof_loop-Agrees f m (split n) i b (omega arith) pos at (omega arith)
                  here)
            | inr at ↦ Agrees-right f m n i b ne big w at (
                verify_subproof_loop-Agrees f (m - split n) (n - split n) i false (omega arith)
                  (omega arith) (omega arith) (omega arith) here)
          ]
    ]

    drop-is_empty : (i : ℕ) → i ≤ length proof → (length (drop i proof) == 0) ≡ (i == length proof)
    drop-is_empty i here = elim (eq-cases i (length proof)) [
      | inl e ↦ rw (
        length-drop i proof,
        (==_iff i (length proof)).1 e,
        (==_iff (length proof - i) 0).1 (omega arith),
      )
      | inr ne ↦
          rw (
            length-drop i proof,
            ==_ne i (length proof) ne,
            ==_ne (length proof - i) 0 (omega arith),
          )
    ]

    consistency_end-Agree :
        (new_root : Hash) (c : Run (Option (Hash × Hash × List Hash)))
        (s : Run (Option (Hash × Hash × ℕ)))
        → Agree c s
        → (do result ← c; done (Proof.consistency_end result old new_root))
          ≡ (do result ← s; done (consistency_end sha256 proof result old new_root))
    unfolding Proof.consistency_end consistency_end
    consistency_end-Agree new_root c s (neither c' s') = rw (c', s')
    consistency_end-Agree new_root c s (both lo ln i here c' s') = rw (c', s', drop-is_empty i here)

  -- Above 2^63 the client's walk does not come past its first split.
  verify_subproof_loop-endless :
      (f m n i : ℕ) (b : Bool) (proof : List Hash) (old : Hash)
      → m ≢ n
      → 2 ^ 63 < n
      → verify_subproof_loop sha256 f m n old proof i b ≡ panic
  unfolding verify_subproof_loop
  verify_subproof_loop-endless zero m n i b proof old ne large = refl
  verify_subproof_loop-endless (suc f) m n i b proof old ne large =
      rw (==_ne m n ne, sdk_split-endless n large)

  -- For sizes of 64 bits and every proof and roots: the client's `verify_consistency` runs as the
  -- server's; or the old size is not 0 and below the new, the new size is above 2^63, and the client
  -- gives no answer, though the server gives one.
  pub verify_consistency-eq_core :
      (m n : ℕ) (proof : List Hash) (old new : Hash)
      → IsU64 n
      → (verify_consistency sha256 m n proof old new
          ≡ Proof.verify_consistency sha256 m n proof old new)
        ⊎ ((0 < m)
            × (m < n)
            × (2 ^ 63 < n)
            × (verify_consistency sha256 m n proof old new ≡ panic)
            × ((b : Bool) × (Proof.verify_consistency sha256 m n proof old new ≡ done b)))
  unfolding verify_consistency Proof.verify_consistency
  verify_consistency-eq_core m n proof old new w = elim (eq-cases m n) [
    | inl e ↦ inl (rw ((==_iff m n).1 e))
    | inr ne ↦ elim (eq-cases m 0) [
      | inl z ↦ inl (rw (==_ne m n ne, (==_iff m 0).1 z))
      | inr pos ↦ elim (le-cases m n) [
        | inr over ↦ inl (rw (==_ne m n ne, ==_ne m 0 pos, lt→ltb n m over))
        | inl fits ↦ elim (le-cases n (2 ^ 63)) [
          | inl most ↦ inl (
              rw (==_ne m n ne, ==_ne m 0 pos, ltb_ge n m fits)
                (sym (
                  consistency_end-Agree proof old new _ _ (
                    verify_subproof_loop-Agrees proof old n m n 0 true (omega arith) (omega arith)
                      fits most (omega arith)))))
          | inr large ↦ inr (
            omega arith,
            omega arith,
            large,
            rw (
              ==_ne m n ne,
              ==_ne m 0 pos,
              ltb_ge n m fits,
              verify_subproof_loop-endless n m n 0 true proof old ne large,
            ),
            verify_consistency_total sha256 m n proof old new w,
          )
        ]
      ]
    ]
  ]

  pub verify_consistency-eq_small :
      (m n : ℕ) (proof : List Hash) (old new : Hash)
      → n ≤ 2 ^ 63
      → verify_consistency sha256 m n proof old new
        ≡ Proof.verify_consistency sha256 m n proof old new
  verify_consistency-eq_small m n proof old new most =
      elim (verify_consistency-eq_core m n proof old new (omega arith)) [
        | inl same ↦ same
        | inr (pos, below, large, endless, answers) ↦ absurd (omega arith)
      ]
