-- ===== src/Core/Proof/Walks.antt =====
-- `verify_subproof` as a relation, and that it does not panic.
use settled.Prelude.{
  ℕ, zero, suc, ◌-◌, ◌≤◌, ◌<◌, List, [], ◌∷◌, Option, none, some, Bool, true, false, ◌≡◌, ◌≢◌, inl,
  inr, refl, arith, le→leb, leb_gt, le-cases, eq-cases, ==_iff, ==_ne, done,
}
use settled.Core.Hash.{Bytes, Hash, node_hash}
use settled.Core.Split.{IsU64, split}
use settled.Core.Split.Bounds.{k_usize-eq-split, split_inside}
use settled.Core.Proof.{verify_subproof_loop}

module _ (sha256 : Bytes → Hash) (old : Hash) where
  -- From the hashes `iter`, the sizes `m` and `n` and the flag, the walk gives the hash `lo` of the
  -- old tree and `ln` of the new one, and leaves `rest`.
  pub data Walks : ℕ → ℕ → List Hash → Bool → Hash → Hash → List Hash → Type 0 where
    shared :
        (m n : ℕ) (iter rest : List Hash) (b : Bool) (lo ln : Hash)
        → m ≡ n
        → b ≡ true
        → lo ≡ old
        → ln ≡ old
        → rest ≡ iter
        → Walks m n iter b lo ln rest
    given :
        (m n : ℕ) (iter rest : List Hash) (b : Bool) (lo ln : Hash)
        → m ≡ n
        → b ≡ false
        → lo ≡ ln
        → iter ≡ ln ∷ rest
        → Walks m n iter b lo ln rest
    left :
        (m n : ℕ) (iter rest : List Hash) (b : Bool) (lo ln below rh : Hash)
        → m ≢ n
        → m ≤ split n
        → Walks m (split n) iter b lo below (rh ∷ rest)
        → ln ≡ node_hash sha256 below rh
        → Walks m n iter b lo ln rest
    right :
        (m n : ℕ) (iter rest : List Hash) (b : Bool) (lo ln ro rn lh : Hash)
        → m ≢ n
        → split n < m
        → Walks (m - split n) (n - split n) iter false ro rn (lh ∷ rest)
        → lo ≡ node_hash sha256 lh ro
        → ln ≡ node_hash sha256 lh rn
        → Walks m n iter b lo ln rest

  abbrev pub Found : Type 0
  Found = Option (Hash × Hash × List Hash)

  -- The walk failed, or gave what the relation says.
  pub data Ends (m n : ℕ) (iter : List Hash) (b : Bool) : Found → Type 0 where
    fails : (o : Found) → o ≡ none → Ends m n iter b o
    gives :
        (o : Found) (lo ln : Hash) (rest : List Hash)
        → o ≡ some (lo, ln, rest)
        → Walks m n iter b lo ln rest
        → Ends m n iter b o

  abbrev Runs : ℕ → ℕ → ℕ → List Hash → Bool → Type 0
  Runs f m n iter b =
      (o : Found) × (verify_subproof_loop sha256 f m n old iter b ≡ done o) × Ends m n iter b o

  Runs-same : (f m n : ℕ) (iter : List Hash) (b : Bool) → m ≡ n → Runs (suc f) m n iter b
  unfolding verify_subproof_loop
  Runs-same f m n iter true e = (
    some (old, old, iter),
    rw ((==_iff m n).1 e),
    gives _ old old iter refl (shared m n iter iter true old old e refl refl refl refl),
  )
  Runs-same f m n [] false e = (none, rw ((==_iff m n).1 e), fails none refl)
  Runs-same f m n (h ∷ iter) false e = (
    some (h, h, iter),
    rw ((==_iff m n).1 e),
    gives _ h h iter refl (given m n (h ∷ iter) iter false h h e refl refl refl),
  )

  module _ (f m n : ℕ) (iter : List Hash) (b : Bool) (ne : m ≢ n) (big : 1 < n) (w : IsU64 n) where
    Runs-left : m ≤ split n → Runs f m (split n) iter b → Runs (suc f) m n iter b
    unfolding verify_subproof_loop
    Runs-left at (o, runs, fails _ e) = (
      none,
      rw (==_ne m n ne, k_usize-eq-split n big w, le→leb m (split n) at, runs, e),
      fails none refl,
    )
    Runs-left at (o, runs, gives _ lo below [] e v) = (
      none,
      rw (==_ne m n ne, k_usize-eq-split n big w, le→leb m (split n) at, runs, e),
      fails none refl,
    )
    Runs-left at (o, runs, gives _ lo below (rh ∷ rest) e v) = (
      some (lo, node_hash sha256 below rh, rest),
      rw (==_ne m n ne, k_usize-eq-split n big w, le→leb m (split n) at, runs, e),
      gives _ lo (node_hash sha256 below rh) rest refl
          (left m n iter rest b lo _ below rh ne at v refl),
    )

    Runs-right :
        split n < m → Runs f (m - split n) (n - split n) iter false → Runs (suc f) m n iter b
    unfolding verify_subproof_loop
    Runs-right at (o, runs, fails _ e) = (
      none,
      rw (==_ne m n ne, k_usize-eq-split n big w, leb_gt m (split n) at, runs, e),
      fails none refl,
    )
    Runs-right at (o, runs, gives _ ro rn [] e v) = (
      none,
      rw (==_ne m n ne, k_usize-eq-split n big w, leb_gt m (split n) at, runs, e),
      fails none refl,
    )
    Runs-right at (o, runs, gives _ ro rn (lh ∷ rest) e v) = (
      some (node_hash sha256 lh ro, node_hash sha256 lh rn, rest),
      rw (==_ne m n ne, k_usize-eq-split n big w, leb_gt m (split n) at, runs, e),
      gives _ _ _ rest refl (right m n iter rest b _ _ ro rn lh ne at v refl refl),
    )

  -- With sizes `0 < m ≤ n` that a `u64` holds, and `n` rounds, the walk does not panic.
  pub verify_subproof_loop-Ends :
      (f m n : ℕ) (iter : List Hash) (b : Bool)
      → n ≤ f
      → 0 < m
      → m ≤ n
      → IsU64 n
      → (o : Found) × (verify_subproof_loop sha256 f m n old iter b ≡ done o) × Ends m n iter b o
  verify_subproof_loop-Ends zero m n iter b l pos in_range w = absurd (omega arith)
  verify_subproof_loop-Ends (suc f) m n iter b l pos in_range w = elim (eq-cases m n) [
    | inl e ↦ Runs-same f m n iter b e
    | inr ne ↦
        let big : 1 < n = omega arith in
        let (u, v) = split_inside n big in
        elim (le-cases m (split n)) [
          | inl at ↦
              Runs-left f m n iter b ne big w at
                (verify_subproof_loop-Ends f m (split n) iter b (omega arith) pos at (omega arith))
          | inr at ↦ Runs-right f m n iter b ne big w at (
              verify_subproof_loop-Ends f (m - split n) (n - split n) iter false (omega arith)
                (omega arith) (omega arith) (omega arith))
        ]
  ]

  -- What the relation says, the walk returns.
  pub Walks-verify_subproof_loop :
      {m n : ℕ} {iter : List Hash} {b : Bool} {lo ln : Hash} {rest : List Hash}
      → Walks m n iter b lo ln rest
      → (f : ℕ) → n ≤ f
      → 0 < m
      → m ≤ n
      → IsU64 n
      → verify_subproof_loop sha256 f m n old iter b ≡ done (some (lo, ln, rest))
  unfolding verify_subproof_loop
  Walks-verify_subproof_loop (shared m n iter rest b lo ln e t l₁ l₂ r) zero l pos fits w =
      absurd (omega arith)
  Walks-verify_subproof_loop (shared m n iter rest b lo ln e t l₁ l₂ r) (suc f) l pos fits w =
      rw ((==_iff m n).1 e, t, l₁, l₂, r)
  Walks-verify_subproof_loop (given m n iter rest b lo ln e t l₁ i) zero l pos fits w =
      absurd (omega arith)
  Walks-verify_subproof_loop (given m n iter rest b lo ln e t l₁ i) (suc f) l pos fits w =
      rw ((==_iff m n).1 e, t, l₁, i)
  Walks-verify_subproof_loop (left m n iter rest b lo ln below rh ne at v e) zero l pos fits w =
      absurd (omega arith)
  Walks-verify_subproof_loop (left m n iter rest b lo ln below rh ne at v e) (suc f) l pos fits w =
      let big : 1 < n = omega arith in
      let (u, s) = split_inside n big in
      rw (
        ==_ne m n ne,
        k_usize-eq-split n big w,
        le→leb m (split n) at,
        Walks-verify_subproof_loop v f (omega arith) pos at (omega arith),
        e,
      )
  Walks-verify_subproof_loop (right m n iter rest b lo ln ro rn lh ne at v e₁ e₂) zero l pos fits
        w =
      absurd (omega arith)
  Walks-verify_subproof_loop (right m n iter rest b lo ln ro rn lh ne at v e₁ e₂) (suc f) l pos fits
        w =
      let big : 1 < n = omega arith in
      let (u, s) = split_inside n big in
      rw (
        ==_ne m n ne,
        k_usize-eq-split n big w,
        leb_gt m (split n) at,
        Walks-verify_subproof_loop v f (omega arith) (omega arith) (omega arith) (omega arith),
        e₁,
        e₂,
      )
