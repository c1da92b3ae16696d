-- ===== src/Core/Proof/History.antt =====
-- An accepted consistency proof shows that the old tree is a prefix of the new one.
use mathlib.Core.Path.{subst}
use settled.Prelude.{
  ℕ, ◌-◌, ◌≤◌, ◌<◌, List, Bool, ◌≡◌, ◌⊎◌, inl, inr, ap, ap₂, sym, ◌∙◌, arith, length, take,
  take-take, take_all, All, All-take, All-drop,
}
use settled.Core.Hash.{Bytes, Hash, IsHash, node_hash}
use settled.Core.Hash.Collisions.{Collision, node_hash-eq}
use settled.Core.Split.{split}
use settled.Core.Merkle.{tree_hash}
use settled.Core.Merkle.Spec.{
  lower, upper, length-lower, length-upper, parts_inside, tree_hash-node, tree_hash-IsHash,
}
use settled.Core.Proof.Walks.{Walks, shared, given, left, right}
use settled.Core.Proof.Consistency.{tree_hash-take}

-- SHA-256 returns 32 bytes.
module _ (sha256 : Bytes → Hash) (sha256_length : (t : Bytes) → IsHash (sha256 t)) where
  node_hash-IsHash : (a b : Hash) → IsHash (node_hash sha256 a b)
  unfolding node_hash
  node_hash-IsHash a b = sha256_length _

  Walks-IsHash :
      {old : Hash} {m n : ℕ} {iter : List Hash} {b : Bool} {lo ln : Hash} {rest : List Hash}
      → Walks sha256 old m n iter b lo ln rest
      → IsHash old
      → All IsHash iter
      → IsHash ln × All IsHash rest
  Walks-IsHash (shared m n iter rest b lo ln e t l₁ l₂ r) o a =
      (subst IsHash (sym l₂) o, subst (All IsHash) (sym r) a)
  Walks-IsHash (given m n iter rest b lo ln e t l₁ i) o a = subst (All IsHash) i a
  Walks-IsHash (left m n iter rest b lo ln below rh ne at v e) o a =
      let (h, k) = Walks-IsHash v o a in (subst IsHash (sym e) (node_hash-IsHash below rh), k.1)
  Walks-IsHash (right m n iter rest b lo ln ro rn lh ne at v e₁ e₂) o a =
      let (h, k) = Walks-IsHash v o a in (subst IsHash (sym e₂) (node_hash-IsHash lh rn), k.1)

  -- A walk that gives the root of the new tree gives the root of the old one.
  pub Walks-tree_hash :
      {old : Hash} {m n : ℕ} {iter : List Hash} {b : Bool} {lo ln : Hash} {rest : List Hash}
      → Walks sha256 old m n iter b lo ln rest
      → (xs : List Hash) → length xs ≡ n
      → 0 < m
      → m ≤ n
      → ln ≡ tree_hash sha256 xs
      → All IsHash xs
      → IsHash old
      → All IsHash iter
      → (lo ≡ tree_hash sha256 (take m xs)) ⊎ Collision sha256
  Walks-tree_hash (shared m n iter rest b lo ln e t l₁ l₂ r) xs l pos fits h hs o a =
      inl (l₁ ∙ sym l₂ ∙ h ∙ ap (tree_hash sha256) (sym (take_all m xs (omega arith))))
  Walks-tree_hash (given m n iter rest b lo ln e t l₁ i) xs l pos fits h hs o a =
      inl (l₁ ∙ h ∙ ap (tree_hash sha256) (sym (take_all m xs (omega arith))))
  Walks-tree_hash (left m n iter rest b lo ln below rh ne at v e) xs l pos fits h hs o a =
      let big : 1 < length xs = omega arith in
      let at' : m ≤ split (length xs) = rw l at in
      let (p, q, r, s) = parts_inside xs big in
      let same : split (length xs) ≡ split n = ap split l in
      let (below_hash, k) = Walks-IsHash v o a in
      elim (node_hash-eq sha256 below rh (tree_hash sha256 (lower xs)) (tree_hash sha256 (upper xs))
        below_hash
        (tree_hash-IsHash sha256 sha256_length (lower xs) p
          (All-take IsHash (split (length xs)) xs hs))
        (sym e ∙ h ∙ tree_hash-node sha256 xs big)) [
          | inl (x, y) ↦
              elim (Walks-tree_hash v (lower xs) (length-lower xs big ∙ same) pos at x
                (All-take IsHash (split (length xs)) xs hs) o a) [
                  | inl z ↦ inl (z ∙ ap (tree_hash sha256) (take-take m (split (length xs)) xs at'))
                  | inr c ↦ inr c
                ]
          | inr c ↦ inr c
        ]
  Walks-tree_hash (right m n iter rest b lo ln ro rn lh ne at v e₁ e₂) xs l pos fits h hs o a =
      let big : 1 < length xs = omega arith in
      let at' : split (length xs) < m = rw l at in
      let (p, q, r, s) = parts_inside xs big in
      let same : split (length xs) ≡ split n = ap split l in
      let (rn_hash, k) = Walks-IsHash v o a in
      elim (node_hash-eq sha256 lh rn (tree_hash sha256 (lower xs)) (tree_hash sha256 (upper xs))
        k.0
        (tree_hash-IsHash sha256 sha256_length (lower xs) p
          (All-take IsHash (split (length xs)) xs hs))
        (sym e₂ ∙ h ∙ tree_hash-node sha256 xs big)) [
          | inl (x, y) ↦
              elim (Walks-tree_hash v (upper xs) (omega (arith, length-upper xs big)) (omega arith)
                (omega arith) y (All-drop IsHash (split (length xs)) xs hs) o a) [
                  | inl z ↦ inl (
                      e₁
                      ∙ ap₂ (node_hash sha256) x
                          (z ∙ ap (λ k. tree_hash sha256 (take (m - k) (upper xs))) (sym same))
                      ∙ tree_hash-take sha256 xs m big at' (omega arith))
                  | inr c ↦ inr c
                ]
          | inr c ↦ inr c
        ]
