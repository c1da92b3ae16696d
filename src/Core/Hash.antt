-- ===== src/Core/Hash.antt =====
-- crates/settled-core/src/hash.rs. A `[u8; 32]` is the list of its bytes. SHA-256 is the sha2
-- crate's: it is a parameter, and what `update` is fed in pieces is hashed as one text.
pub mod Collisions
use settled.Prelude.{ℕ, List, [], ◌∷◌, ◌++◌, Bool, true, false, ◌≡◌, ◌&&◌, ◌==◌, length, replicate}

abbrev pub Bytes : Type 0
Bytes = List ℕ

abbrev pub Hash : Type 0
Hash = List ℕ

-- What the type `[u8; 32]` says of the number of bytes.
abbrev pub IsHash : Hash → Type 0
IsHash h = length h ≡ 32

-- `==` on byte arrays.
unfoldable pub bytes_eq : Bytes → Bytes → Bool
bytes_eq [] [] = true
bytes_eq [] (y ∷ ys) = false
bytes_eq (x ∷ xs) [] = false
bytes_eq (x ∷ xs) (y ∷ ys) = x == y && bytes_eq xs ys

abbrev pub zero_hash : Hash
zero_hash = replicate 32 0

module _ (sha256 : Bytes → Hash) where
  unfoldable pub leaf_hash : Bytes → Hash
  leaf_hash data_bytes = sha256 (0x00 ∷ data_bytes)

  unfoldable pub node_hash : Hash → Hash → Hash
  node_hash left right = sha256 (0x01 ∷ left ++ right)
