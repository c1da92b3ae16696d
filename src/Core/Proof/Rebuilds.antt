-- ===== src/Core/Proof/Rebuilds.antt =====
-- What an inclusion proof has to be, read from the root to the leaf: RFC 6962, section 2.1.1.
use settled.Prelude.{
  ℕ, zero, suc, ◌-◌, ◌≤◌, ◌<◌, List, [], ◌∷◌, ◌≡◌, inl, inr, refl, arith, length, le-cases,
}
use settled.Core.Hash.{Bytes, Hash, node_hash}
use settled.Core.Split.{split}
use settled.Core.Split.Bounds.{split_inside}

module _ (sha256 : Bytes → Hash) where
  -- The siblings `qs`, the one below the root first, take the leaf `lh` at index `m` of `n` leaves
  -- to the hash `h`.
  pub data Rebuilds : ℕ → ℕ → Hash → List Hash → Hash → Type 0 where
    leaf : (m n : ℕ) (lh h : Hash) → m ≡ 0 → n ≡ 1 → h ≡ lh → Rebuilds m n lh [] h
    left :
        (m n : ℕ) (lh s r h : Hash) (qs : List Hash)
        → 1 < n
        → m < split n
        → Rebuilds m (split n) lh qs r
        → h ≡ node_hash sha256 r s
        → Rebuilds m n lh (s ∷ qs) h
    right :
        (m n : ℕ) (lh s r h : Hash) (qs : List Hash)
        → 1 < n
        → split n ≤ m
        → Rebuilds (m - split n) (n - split n) lh qs r
        → h ≡ node_hash sha256 s r
        → Rebuilds m n lh (s ∷ qs) h

  -- Some number of siblings is the right one: with that many, every list rebuilds some hash.
  abbrev pub Depth : ℕ → ℕ → ℕ → Type 0
  Depth m n d = (lh : Hash) (qs : List Hash) → length qs ≡ d → (h : Hash) × Rebuilds m n lh qs h

  Depth-left : (m n d : ℕ) → 1 < n → m < split n → Depth m (split n) d → Depth m n (suc d)
  Depth-left m n d h at below lh [] e = absurd (omega arith)
  Depth-left m n d h at below lh (s ∷ qs) e =
      let (r, b) = below lh qs (omega arith) in
      (node_hash sha256 r s, left m n lh s r (node_hash sha256 r s) qs h at b refl)

  Depth-right :
      (m n d : ℕ) → 1 < n → split n ≤ m → Depth (m - split n) (n - split n) d → Depth m n (suc d)
  Depth-right m n d h at below lh [] e = absurd (omega arith)
  Depth-right m n d h at below lh (s ∷ qs) e =
      let (r, b) = below lh qs (omega arith) in
      (node_hash sha256 s r, right m n lh s r (node_hash sha256 s r) qs h at b refl)

  Depth-one : (m : ℕ) → m < 1 → Depth m 1 0
  Depth-one m h lh [] e = (lh, leaf m 1 lh lh (omega arith) refl refl)
  Depth-one m h lh (s ∷ qs) e = absurd (omega arith)

  Depth-exists_fuel : (f m n : ℕ) → n ≤ f → m < n → (d : ℕ) × Depth m n d
  Depth-exists_fuel f m zero l h = absurd (omega arith)
  Depth-exists_fuel f m (suc zero) l h = (0, Depth-one m h)
  Depth-exists_fuel zero m (suc (suc n)) l h = absurd (omega arith)
  Depth-exists_fuel (suc f) m (suc (suc n)) l h =
      let (a, b) = split_inside (suc (suc n)) (omega arith) in
      elim (le-cases (split (suc (suc n))) m) [
        | inl at ↦
            let (d, below) =
              Depth-exists_fuel f (m - split (suc (suc n))) (suc (suc n) - split (suc (suc n)))
                (omega arith) (omega arith) in
            (suc d, Depth-right m (suc (suc n)) d (omega arith) at below)
        | inr at ↦
            let (d, below) = Depth-exists_fuel f m (split (suc (suc n))) (omega arith) at in
            (suc d, Depth-left m (suc (suc n)) d (omega arith) at below)
      ]

  pub Depth-exists : (m n : ℕ) → m < n → (d : ℕ) × Depth m n d
  Depth-exists m n h = Depth-exists_fuel n m n (omega arith) h
