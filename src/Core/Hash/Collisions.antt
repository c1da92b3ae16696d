-- ===== src/Core/Hash/Collisions.antt =====
-- Two inputs with one digest, and what follows from equal digests if there are none.

use settled.Prelude.{
  [], ◌∷◌, ◌++◌, true, ◌≡◌, ◌≢◌, ◌↔◌, ◌⊎◌, inl, inr, refl, ap₂, length, arith, Bool-cases,
}
use settled.Core.Hash.{Bytes, Hash, IsHash, bytes_eq, leaf_hash, node_hash}

pub bytes_eq_sound : (xs ys : Bytes) → bytes_eq xs ys ≡ true → xs ≡ ys
unfolding bytes_eq
bytes_eq_sound [] [] h = refl
bytes_eq_sound [] (y ∷ ys) h = cc
bytes_eq_sound (x ∷ xs) [] h = cc
bytes_eq_sound (x ∷ xs) (y ∷ ys) h = ground (arith, bytes_eq_sound xs ys)

pub bytes_eq_refl : (xs : Bytes) → bytes_eq xs xs ≡ true
unfolding bytes_eq
bytes_eq_refl [] = refl
bytes_eq_refl (x ∷ xs) = ground (arith, bytes_eq_refl xs)

pub bytes_eq_iff : (xs ys : Bytes) → (bytes_eq xs ys ≡ true) ↔ (xs ≡ ys)
bytes_eq_iff xs ys = (bytes_eq_sound xs ys, λ e. rw e (bytes_eq_refl ys))

pub bytes_eq-cases : (xs ys : Bytes) → (xs ≡ ys) ⊎ (xs ≢ ys)
bytes_eq-cases xs ys = elim (Bool-cases (bytes_eq xs ys)) [
  | inl e ↦ inl (bytes_eq_sound xs ys e)
  | inr ne ↦ inr (λ e. cc (ne, (bytes_eq_iff xs ys).1 e))
]

pub append_injective :
    (a b c d : Bytes) → length a ≡ length c → (a ++ b) ≡ (c ++ d) → (a ≡ c) × (b ≡ d)
append_injective [] b [] d l e = (refl, e)
append_injective [] b (z ∷ c) d l e = absurd (omega arith)
append_injective (x ∷ a) b [] d l e = absurd (omega arith)
append_injective (x ∷ a) b (z ∷ c) d l e =
    let (p, q) = append_injective a b c d (omega arith) (cc) in (ap₂ ◌∷◌ (cc) p, q)

module _ (sha256 : Bytes → Hash) where
  abbrev pub Collision : Type 0
  Collision = (x : Bytes) × (y : Bytes) × (x ≢ y) × (sha256 x ≡ sha256 y)

  -- Equal node hashes have equal children, or a collision is at hand.
  pub node_hash-eq :
      (a b c d : Hash)
      → IsHash a
      → IsHash c
      → node_hash sha256 a b ≡ node_hash sha256 c d
      → ((a ≡ c) × (b ≡ d)) ⊎ Collision
  unfolding node_hash
  node_hash-eq a b c d ha hc e = elim (bytes_eq-cases (1 ∷ a ++ b) (1 ∷ c ++ d)) [
    | inl same ↦ inl (append_injective a b c d (omega arith) (cc))
    | inr differ ↦ inr (1 ∷ a ++ b, 1 ∷ c ++ d, differ, e)
  ]

  -- The domain separation of RFC 6962: a leaf hash that is a node hash is a collision.
  pub leaf_hash-ne-node_hash :
      (d : Bytes) (a b : Hash) → leaf_hash sha256 d ≡ node_hash sha256 a b → Collision
  unfolding leaf_hash node_hash
  leaf_hash-ne-node_hash d a b e = (0 ∷ d, 1 ∷ a ++ b, (λ s. cc), e)

  -- Equal leaf hashes have equal data, or a collision is at hand.
  pub leaf_hash-eq : (d e : Bytes) → leaf_hash sha256 d ≡ leaf_hash sha256 e → (d ≡ e) ⊎ Collision
  unfolding leaf_hash
  leaf_hash-eq d e h = elim (bytes_eq-cases d e) [
    | inl same ↦ inl same
    | inr differ ↦ inr (0 ∷ d, 0 ∷ e, (λ s. differ (cc)), h)
  ]
