-- ===== src/Core/Merkle.antt =====
-- crates/settled-core/src/merkle.rs.
pub mod Spec
pub mod Mth
pub mod Frontier
pub mod Tree
pub mod Incremental
use settled.Prelude.{
  ℕ, zero, suc, ◌+◌, ◌/◌, ◌%◌, ◌^◌, List, [], ◌∷◌, ◌++◌, Option, none, some, Bool, ltb, ◌==◌,
  if◌then◌else◌, length, get_elem?, set, take, drop, Run, done, panic, ◌>>=◌, unwrap, split_at,
}
use settled.Core.Hash.{Bytes, Hash, zero_hash, node_hash}
use settled.Core.Split.{k, split}

-- `size & (1 << level) != 0`.
abbrev pub test_bit : ℕ → ℕ → Bool
test_bit n level = n / 2 ^ level % 2 == 1

pub record MerkleTree : Type 0 where
  pub frontier : List Hash
  pub size : ℕ

unfoldable pub new : MerkleTree
new = record { frontier = []; size = 0 }

-- `for l in 0..level { frontier[l] = [0u8; 32] }`; an index out of range would panic.
pub clear_below : ℕ → List Hash → Run (List Hash)
clear_below zero fs = done fs
clear_below (suc n) [] = panic
clear_below (suc n) (f ∷ fs) = do rest ← clear_below n fs; done (zero_hash ∷ rest)

-- The end of `append`: the hash is put at its level, and the levels below are cleared.
pub place : List Hash → ℕ → Hash → Run (List Hash)
unfolding clear_below
place frontier level hash =
    let placed =
      if ltb level (length frontier) then set frontier level hash else frontier ++ hash ∷ [] in
    clear_below level placed

module _ (sha256 : Bytes → Hash) where
  -- `mth`, on fuel for the recursion on the halves.
  mth_loop : ℕ → List Hash → Run (Option Hash)
  mth_loop f [] = done none
  mth_loop f (x ∷ []) = done (some x)
  mth_loop zero (x ∷ y ∷ xs) = panic
  mth_loop (suc f) (x ∷ y ∷ xs) = do
    at ← k (length (x ∷ y ∷ xs))
    (lower, upper) ← split_at at (x ∷ y ∷ xs)
    left ← unwrap (← mth_loop f lower)
    right ← unwrap (← mth_loop f upper)
    done (some (node_hash sha256 left right))

  unfoldable pub mth : List Hash → Run (Option Hash)
  unfolding mth_loop
  mth leaf_hashes = mth_loop (length leaf_hashes) leaf_hashes

  -- `while size & (1 << level) != 0` of `append`, on fuel: the level where it stops, and the hash.
  pub carry_loop : ℕ → ℕ → List Hash → Hash → ℕ → Run (ℕ × Hash)
  carry_loop zero size frontier hash level = panic
  carry_loop (suc f) size frontier hash level =
      let rest = (do
        node ← unwrap (get_elem? frontier level)
        carry_loop f size frontier (node_hash sha256 node hash) (level + 1)) in
      if test_bit size level then rest else done (level, hash)

  -- Each round indexes the frontier, so it is at most as many rounds as the frontier is long.
  unfoldable pub append : MerkleTree → Hash → Run (ℕ × MerkleTree)
  unfolding carry_loop place
  append t lh = do
    let index = t.size
    (level, hash) ← carry_loop (suc (length t.frontier)) t.size t.frontier lh 0
    cleared ← place t.frontier level hash
    done (index, record { frontier = cleared; size = (t.size + 1) % 2 ^ 64 })

  -- The loop of `AppState::build` (crates/settled-server/src/state.rs) over the leaf hashes.
  unfoldable pub append_all : MerkleTree → List Hash → Run MerkleTree
  append_all t [] = done t
  append_all t (lh ∷ lhs) = do (index, t') ← append t lh; append_all t' lhs

  -- One round of `root`, for the node at a level whose bit is set.
  pub combine : Hash → Option Hash → Hash
  combine node none = node
  combine node (some h) = node_hash sha256 node h

  pub root_loop : ℕ → ℕ → List Hash → Option Hash → Option Hash
  root_loop size level [] hash = hash
  root_loop size level (node ∷ nodes) hash =
      root_loop size (level + 1) nodes
        (if test_bit size level then some (combine node hash) else hash)

  unfoldable pub root : MerkleTree → Option Hash
  unfolding root_loop combine
  root t = if t.size == 0 then none else root_loop t.size 0 t.frontier none

  -- RFC 6962 MTH of a non-empty list, with no width and no panic: what the functions above promise.
  tree_hash_loop : ℕ → List Hash → Hash
  tree_hash_loop f [] = []
  tree_hash_loop f (x ∷ []) = x
  tree_hash_loop zero (x ∷ y ∷ xs) = []
  tree_hash_loop (suc f) (x ∷ y ∷ xs) =
      let at = split (length (x ∷ y ∷ xs)) in
      let left = tree_hash_loop f (take at (x ∷ y ∷ xs)) in
      let right = tree_hash_loop f (drop at (x ∷ y ∷ xs)) in node_hash sha256 left right

  unfoldable pub tree_hash : List Hash → Hash
  unfolding tree_hash_loop
  tree_hash xs = tree_hash_loop (length xs) xs
