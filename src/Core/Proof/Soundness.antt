-- ===== src/Core/Proof/Soundness.antt =====
-- An accepted inclusion proof is the generated one, for the leaf that stands at the index.
use mathlib.Core.List.{reverse, reverse-append, reverse-reverse}
use mathlib.Core.Path.{subst}
use mathlib.Core.Option.{some-injective}
use settled.Prelude.{
  ℕ, zero, suc, ◌-◌, List, [], ◌∷◌, some, ◌≡◌, ◌⊎◌, inl, inr, refl, ap, ap₂, sym, ◌∙◌, arith,
  length, get_elem?, get_elem?-lt, All, All-append, true, done,
}
use settled.Core.Hash.{Bytes, Hash, IsHash, node_hash}
use settled.Core.Hash.Collisions.{Collision, node_hash-eq}
use settled.Core.Split.{IsU64, split}
use settled.Core.Merkle.{mth, tree_hash}
use settled.Core.Merkle.Mth.{mth-eq-tree_hash}
use settled.Core.Proof.{inclusion_proof, verify_inclusion, ok}
use settled.Core.Proof.Rebuilds.{Rebuilds, leaf, left, right}
use settled.Core.Proof.Verify.{verify_inclusion_iff}
use settled.Core.Proof.Inclusion.{inclusion_proof-Rebuilds}

All-reverse {ℓ κ} : {A : Type ℓ} (P : A → Type κ) (xs : List A) → All P xs → All P (reverse xs)
All-reverse P [] h = tt
All-reverse P (x ∷ xs) h =
    subst (All P) (sym (reverse-append (x ∷ []) xs))
      (All-append P (reverse xs) (x ∷ []) (All-reverse P xs h.1) (h.0, tt))

All-get {ℓ κ} :
    {A : Type ℓ} (P : A → Type κ) (xs : List A) (m : ℕ) (x : A)
    → All P xs
    → get_elem? xs m ≡ some x
    → P x
All-get P [] m x h e = cc
All-get P (y ∷ xs) zero x h e = subst P (some-injective y x e) h.0
All-get P (y ∷ xs) (suc m) x h e = All-get P xs m x h.1 e

-- SHA-256 returns 32 bytes.
module _ (sha256 : Bytes → Hash) (sha256_length : (t : Bytes) → IsHash (sha256 t)) where
  node_hash-IsHash : (a b : Hash) → IsHash (node_hash sha256 a b)
  unfolding node_hash
  node_hash-IsHash a b = sha256_length _

  Rebuilds-IsHash :
      {m n : ℕ} {lh : Hash} {qs : List Hash} {h : Hash}
      → Rebuilds sha256 m n lh qs h
      → IsHash lh
      → IsHash h
  Rebuilds-IsHash (leaf m n lh h m0 n1 e) l = subst IsHash (sym e) l
  Rebuilds-IsHash (left m n lh s r h qs big at b e) l = subst IsHash (sym e) (node_hash-IsHash r s)
  Rebuilds-IsHash (right m n lh s r h qs big at b e) l = subst IsHash (sym e) (node_hash-IsHash s r)

  one_more :
      (lh lh' s s' : Hash) (qs qs' : List Hash)
      → s ≡ s'
      → ((lh ≡ lh') × (qs ≡ qs')) ⊎ Collision sha256
      → ((lh ≡ lh') × (s ∷ qs ≡ s' ∷ qs')) ⊎ Collision sha256
  one_more lh lh' s s' qs qs' e (inl (p, q)) = inl (p, ap₂ ◌∷◌ e q)
  one_more lh lh' s s' qs qs' e (inr c) = inr c

  -- Two lists of siblings that rebuild one root at one index are one, and so are the leaves, or a
  -- collision is at hand.
  Rebuilds-unique :
      {m n : ℕ} {lh lh' : Hash} {qs qs' : List Hash} {h : Hash}
      → Rebuilds sha256 m n lh qs h
      → Rebuilds sha256 m n lh' qs' h
      → IsHash lh
      → IsHash lh'
      → All IsHash qs
      → All IsHash qs'
      → ((lh ≡ lh') × (qs ≡ qs')) ⊎ Collision sha256
  Rebuilds-unique (leaf m n lh h m0 n1 e) (leaf _ _ lh' _ _ _ e') l l' a a' = inl (cc, refl)
  Rebuilds-unique (leaf m n lh h m0 n1 e) (left _ _ lh' s' r' _ qs' big' at' b' e') l l' a a' =
      absurd (omega arith)
  Rebuilds-unique (leaf m n lh h m0 n1 e) (right _ _ lh' s' r' _ qs' big' at' b' e') l l' a a' =
      absurd (omega arith)
  Rebuilds-unique (left m n lh s r h qs big at b e) (leaf _ _ lh' _ m0 n1 e') l l' a a' =
      absurd (omega arith)
  Rebuilds-unique (right m n lh s r h qs big at b e) (leaf _ _ lh' _ m0 n1 e') l l' a a' =
      absurd (omega arith)
  Rebuilds-unique (left m n lh s r h qs big at b e) (right _ _ lh' s' r' _ qs' big' at' b' e') l l'
        a a' =
      absurd (omega arith)
  Rebuilds-unique (right m n lh s r h qs big at b e) (left _ _ lh' s' r' _ qs' big' at' b' e') l l'
        a a' =
      absurd (omega arith)
  Rebuilds-unique (left m n lh s r h qs big at b e) (left _ _ lh' s' r' _ qs' big' at' b' e') l l' a
        a' =
      elim (node_hash-eq sha256 r s r' s' (Rebuilds-IsHash b l) (Rebuilds-IsHash b' l')
        (sym e ∙ e')) [
          | inl (p, q) ↦ one_more lh lh' s s' qs qs' q (
              Rebuilds-unique b (subst (Rebuilds sha256 m (split n) lh' qs') (sym p) b') l l' a.1
                a'.1)
          | inr c ↦ inr c
        ]
  Rebuilds-unique (right m n lh s r h qs big at b e) (right _ _ lh' s' r' _ qs' big' at' b' e') l l'
        a a' =
      elim (node_hash-eq sha256 s r s' r' a.0 a'.0 (sym e ∙ e')) [
        | inl (p, q) ↦ one_more lh lh' s s' qs qs' p (
            Rebuilds-unique b
              (subst (Rebuilds sha256 (m - split n) (n - split n) lh' qs') (sym q) b') l l' a.1
              a'.1)
        | inr c ↦ inr c
      ]

  -- For hashes and digests of 32 bytes, fewer than 2^64 leaves, and the root that `mth` gives for
  -- them: an accepted leaf is the leaf at that index, and the accepted proof is the one that
  -- `inclusion_proof` returns; otherwise two texts with one SHA-256 digest are at hand.
  pub inclusion_sound :
      (xs : List Hash) (m : ℕ) (lh root : Hash) (proof : List Hash)
      → IsU64 (length xs)
      → All IsHash xs
      → IsHash lh
      → All IsHash proof
      → mth sha256 xs ≡ done (some root)
      → verify_inclusion sha256 lh m (length xs) proof root ≡ true
      → ((get_elem? xs m ≡ some lh) × (inclusion_proof sha256 xs m ≡ done (ok proof)))
        ⊎ Collision sha256
  inclusion_sound xs m lh root proof w hashes l a r v =
      let (inside, b) = (verify_inclusion_iff sha256 lh m (length xs) proof root).0 v in
      let (x, there) = get_elem?-lt xs m inside in
      let (ps, runs, b', hashed) = inclusion_proof-Rebuilds sha256 m xs x w there in
      let same : tree_hash sha256 xs ≡ root = cc (mth-eq-tree_hash sha256 xs (omega arith) w) in
      elim (Rebuilds-unique b (subst (Rebuilds sha256 m (length xs) x (reverse ps)) same b') l
        (All-get IsHash xs m x hashes there) (All-reverse IsHash proof a)
        (All-reverse IsHash ps (hashed sha256_length hashes))) [
          | inl (p, q) ↦ inl (
            there ∙ ap some (sym p),
            runs
                ∙ ap (λ s. done (ok s))
                    (sym (reverse-reverse ps) ∙ ap reverse (sym q) ∙ reverse-reverse proof),
          )
          | inr c ↦ inr c
        ]
