-- ===== src/Core/Examples.antt =====
-- Tests of settled-core on small trees, with a toy hash in place of SHA-256.
use settled.Prelude.{
  panic, ℕ, ◌+◌, ◌*◌, ◌%◌, ◌^◌, ◌≤◌, ◌<◌, List, [], ◌∷◌, Bool, true, false, some, ◌≡◌, ◌↔◌, ◌⊎◌,
  refl, arith, length-replicate, replicate, get_elem?, take, All, done,
}
use mathlib.Core.List.{reverse}
use settled.Core.Hash.{Bytes, Hash, IsHash, bytes_eq, zero_hash, node_hash}
use settled.Core.Hash.Collisions.{Collision}
use settled.Core.Split.{k, k_usize, sdk_split, split_loop}
use settled.Core.Split.Bounds.{splits_agree}
use settled.Core.Ed25519.{Ed25519}
use settled.Core.Merkle.{MerkleTree, new, append, append_all, root, mth, tree_hash}
use settled.Core.Merkle.Mth.{mth-eq-tree_hash}
use settled.Core.Merkle.Tree.{IsTreeOf, IsTreeOf-new, append-IsTreeOf}
use settled.Core.Merkle.Incremental.{root-append_all}
use settled.Core.Proof.{
  inclusion_proof, verify_inclusion, consistency_proof, verify_consistency, ok,
}
use settled.Core.Proof.Rebuilds.{Rebuilds}
use settled.Core.Proof.Verify.{verify_inclusion_iff}
use settled.Core.Proof.Inclusion.{inclusion_complete}
use settled.Core.Proof.Soundness.{inclusion_sound}
use settled.Core.Proof.Consistency.{consistency_complete}
use settled.Core.Proof.Checked.{verify_consistency_total, consistency_sound}

-- A checksum, 32 times over.
abbrev pub checksum : Bytes → ℕ → ℕ
checksum [] acc = acc
checksum (b ∷ bs) acc = checksum bs ((acc * 31 + b + 7) % 251)

abbrev pub toy : Bytes → Hash
toy t = replicate 32 (checksum t 1)

pub toy_length : (t : Bytes) → IsHash (toy t)
toy_length t = length-replicate 32 (checksum t 1)

abbrev pub leaves : List Hash
leaves = replicate 32 10 ∷ replicate 32 20 ∷ replicate 32 30 ∷ []

pub leaves_hashes : All IsHash leaves
leaves_hashes = (refl, (refl, (refl, tt)))

abbrev pub at : ℕ → Hash
at b = replicate 32 b

root_of_three : mth toy leaves ≡ done (some (at 177))
unfolding mth k node_hash
root_of_three = refl

root_of_two : mth toy (take 2 leaves) ≡ done (some (at 79))
unfolding mth k node_hash
root_of_two = refl

-- The proof for the second leaf of three.
proof_accepted : verify_inclusion toy (at 20) 1 3 (at 10 ∷ at 30 ∷ []) (at 177) ≡ true
unfolding verify_inclusion node_hash bytes_eq
proof_accepted = refl

wrong_index_refused : verify_inclusion toy (at 20) 0 3 (at 10 ∷ at 30 ∷ []) (at 177) ≡ false
unfolding verify_inclusion node_hash bytes_eq
wrong_index_refused = refl

history_accepted : verify_consistency toy 2 3 (at 30 ∷ []) (at 79) (at 177) ≡ done true
unfolding verify_consistency k_usize node_hash bytes_eq
history_accepted = refl

long_proof_refused : verify_consistency toy 2 3 (at 30 ∷ at 30 ∷ []) (at 79) (at 177) ≡ done false
unfolding verify_consistency k_usize node_hash bytes_eq
long_proof_refused = refl

abbrev two_leaves : MerkleTree
two_leaves = record { frontier = zero_hash ∷ at 79 ∷ []; size = 2 }

appended : append_all toy new (take 2 leaves) ≡ done two_leaves
unfolding append_all append new node_hash
appended = refl

pub data Key : Type 0 where
  the_key : Key

pub from_bytes_key : (k : Key) → some the_key ≡ some k
from_bytes_key the_key = refl

-- A signature scheme whose keys are the single key, and that accepts the one signature it makes.
abbrev pub one_key : Ed25519
one_key = record {
  SigningKey = Key;
  VerifyingKey = Key;
  signing_key = λ _. the_key;
  signing_key_bytes = λ _. at 1;
  sign = λ _ _. replicate 64 5;
  verifying_key = λ k. k;
  from_bytes = λ _. some the_key;
  to_bytes = λ _. at 1;
  verify = λ _ _ _. true;
  verify_strict = λ _ _ _. true;
  from_bytes-to_bytes = from_bytes_key;
  length-to_bytes = λ _. refl;
  length-sign = λ _ _. refl;
  verify-sign = λ _ _. refl;
  verify_strict-sign = λ _ _. refl;
}

inclusion_sound_example :
    ((get_elem? leaves 1 ≡ some (at 20))
      × (inclusion_proof toy leaves 1 ≡ done (ok (at 10 ∷ at 30 ∷ []))))
    ⊎ Collision toy
inclusion_sound_example =
    inclusion_sound toy toy_length leaves 1 (at 20) (at 177) (at 10 ∷ at 30 ∷ []) (omega arith)
      leaves_hashes refl (refl, (refl, tt)) root_of_three proof_accepted

consistency_sound_example :
    ((2 ≤ 3) × (mth toy (take 2 leaves) ≡ done (some (at 79)))) ⊎ Collision toy
consistency_sound_example =
    consistency_sound toy toy_length leaves 2 (at 79) (at 177) (at 30 ∷ []) (omega arith)
      leaves_hashes refl (refl, tt) root_of_three history_accepted

inclusion_complete_example :
    (proof : List Hash) × (r : Hash) × (inclusion_proof toy leaves 2 ≡ done (ok proof))
    × (mth toy leaves ≡ done (some r))
    × (verify_inclusion toy (at 30) 2 3 proof r ≡ true)
inclusion_complete_example = inclusion_complete toy leaves 2 (at 30) (omega arith) refl

consistency_complete_example :
    (proof : List Hash) × (old_root : Hash) × (new_root : Hash) × (consistency_proof toy leaves 1
      ≡ done (ok proof))
    × (mth toy (take 1 leaves) ≡ done (some old_root))
    × (mth toy leaves ≡ done (some new_root))
    × (verify_consistency toy 1 3 proof old_root new_root ≡ done true)
consistency_complete_example =
    consistency_complete toy leaves 1 (omega arith) (omega arith) (omega arith)

root-append_all_example :
    (t : MerkleTree) × (append_all toy new leaves ≡ done t)
    × (t.size ≡ 3)
    × (mth toy leaves ≡ done (root toy t))
root-append_all_example = root-append_all toy leaves (omega arith)

verify_inclusion_iff_example :
    (verify_inclusion toy (at 20) 1 3 (at 10 ∷ at 30 ∷ []) (at 177) ≡ true)
    ↔ ((1 < 3) × Rebuilds toy 1 3 (at 20) (reverse (at 10 ∷ at 30 ∷ [])) (at 177))
verify_inclusion_iff_example = verify_inclusion_iff toy (at 20) 1 3 (at 10 ∷ at 30 ∷ []) (at 177)

verify_consistency_total_example :
    (b : Bool) × (verify_consistency toy 2 3 (at 30 ∷ []) (at 79) (at 177) ≡ done b)
verify_consistency_total_example =
    verify_consistency_total toy 2 3 (at 30 ∷ []) (at 79) (at 177) (omega arith)

mth-eq-tree_hash_example : mth toy leaves ≡ done (some (tree_hash toy leaves))
mth-eq-tree_hash_example = mth-eq-tree_hash toy leaves (omega arith) (omega arith)

append-IsTreeOf_example :
    (t : MerkleTree) × (append toy new (at 10) ≡ done (0, t)) × IsTreeOf toy (at 10 ∷ []) t
append-IsTreeOf_example = append-IsTreeOf toy [] new (at 10) (IsTreeOf-new toy) (omega arith)

splits_agree_example :
    (p : ℕ) × (k 5 ≡ done (2 ^ p))
    × (k_usize 5 ≡ done (2 ^ p))
    × (2 ^ p < 5)
    × (5 ≤ 2 * 2 ^ p)
    × (((5 ≤ 2 ^ 63) × (sdk_split 5 ≡ done (2 ^ p)))
        ⊎ ((2 ^ 63 < 5) × ((rounds : ℕ) → split_loop rounds 5 1 ≡ panic)))
splits_agree_example = splits_agree 5 (omega arith) (omega arith)

-- At the top of the range the SDK's split has no answer.
no_split : sdk_split (2 ^ 63 + 1) ≡ panic
unfolding sdk_split split_loop
no_split = refl
