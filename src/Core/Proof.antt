-- ===== src/Core/Proof.antt =====
-- crates/settled-core/src/proof.rs: generating and verifying inclusion and consistency proofs.
pub mod Rebuilds
pub mod Loop
pub mod Verify
pub mod Inclusion
pub mod Soundness
pub mod Walks
pub mod Consistency
pub mod History
pub mod Checked
use settled.Prelude.{
  ℕ, zero, suc, ◌+◌, ◌-◌, ◌/◌, ◌%◌, List, [], ◌∷◌, ◌++◌, Option, none, some, Bool, true, false,
  ◌&&◌, ◌||◌, not, ltb, leb, ◌==◌, if◌then◌else◌, length, Run, done, panic, ◌>>=◌, unwrap, split_at,
  take, drop,
}
use settled.Core.Hash.{Bytes, Hash, node_hash, bytes_eq}
use settled.Core.Split.{k_usize, split}
use settled.Core.Merkle.{mth}

pub data ProofError : Type 0 where
  leaf_index_out_of_range invalid_sizes : ℕ → ℕ → ProofError
  too_short too_long : ProofError

pub data Result {ℓ} (A : Type ℓ) : Type ℓ where
  ok : A → Result A
  err : ProofError → Result A

-- `while fn_ != 0 && (fn_ & 1) == 0 { fn_ >>= 1; sn >>= 1 }`. Each round halves `fn_`, so a number is
-- enough fuel for itself.
unfoldable pub strip_loop : ℕ → ℕ → ℕ → ℕ × ℕ
strip_loop zero fn sn = (fn, sn)
strip_loop (suc f) fn sn =
    let rest = strip_loop f (fn / 2) (sn / 2) in
    if not (fn == 0) && fn % 2 == 0 then rest else (fn, sn)

unfoldable pub strip : ℕ → ℕ → ℕ × ℕ
unfolding strip_loop
strip fn sn = strip_loop fn fn sn

-- The last lines of the two verifiers.
unfoldable pub inclusion_end : Option (ℕ × ℕ × Hash) → Hash → Bool
inclusion_end none root = false
inclusion_end (some (fn, sn, r)) root = sn == 0 && bytes_eq r root

unfoldable pub consistency_end : Option (Hash × Hash × List Hash) → Hash → Hash → Bool
consistency_end none old_root new_root = false
consistency_end (some (computed_old, computed_new, rest)) old_root new_root =
    length rest == 0 && bytes_eq computed_old old_root && bytes_eq computed_new new_root

-- `?` on an `Option`, in code that may panic.
abbrev pub try {ℓ κ} :
    {A : Type ℓ} {B : Type κ} → Run (Option A) → (A → Run (Option B)) → Run (Option B)
try (done (some a)) f = f a
try (done none) f = done none
try panic f = panic

-- `iter.next()`.
abbrev pub next : List Hash → Run (Option (Hash × List Hash))
next [] = done none
next (h ∷ rest) = done (some (h, rest))

module _ (sha256 : Bytes → Hash) where
  -- `path`, on fuel. The split of a list shorter than 2 panics.
  pub path_loop : ℕ → List Hash → ℕ → Run (List Hash)
  path_loop zero leaves m = panic
  path_loop (suc f) leaves m =
      let n = length leaves in
      let deeper = (do
        at ← k_usize n
        (lower, upper) ← split_at at leaves
        let left = (do p ← path_loop f lower m; h ← unwrap (← mth sha256 upper); done (p ++ h ∷ []))
        let right = (do
          p ← path_loop f upper (m - at)
          h ← unwrap (← mth sha256 lower)
          done (p ++ h ∷ []))
        if ltb m at then left else right) in
      if n == 1 then done [] else deeper

  unfoldable pub path : List Hash → ℕ → Run (List Hash)
  unfolding path_loop
  path leaves m = path_loop (length leaves) leaves m

  unfoldable pub inclusion_proof : List Hash → ℕ → Run (Result (List Hash))
  unfolding path
  inclusion_proof leaves leaf_index =
      let n = length leaves in
      let proof = (do p ← path leaves leaf_index; done (ok p)) in
      if leb n leaf_index then done (err (leaf_index_out_of_range leaf_index n)) else proof

  -- One round of the loop of `verify_inclusion`, from `(fn_, sn, r)`.
  unfoldable pub inclusion_step : Hash → ℕ → ℕ → Hash → ℕ × ℕ × Hash
  unfolding strip
  inclusion_step step fn sn r =
      if not (fn % 2 == 0) || fn == sn
      then (let (fn', sn') = strip fn sn in (fn' / 2, sn' / 2, node_hash sha256 step r))
      else (fn / 2, sn / 2, node_hash sha256 r step)

  -- `for step in proof`; `none` is the `return false` inside.
  unfoldable pub inclusion_loop : List Hash → ℕ → ℕ → Hash → Option (ℕ × ℕ × Hash)
  inclusion_loop [] fn sn r = some (fn, sn, r)
  inclusion_loop (step ∷ proof) fn sn r =
      if sn == 0
      then none
      else (let (fn', sn', r') = inclusion_step step fn sn r in inclusion_loop proof fn' sn' r')

  unfoldable pub verify_inclusion : Hash → ℕ → ℕ → List Hash → Hash → Bool
  unfolding inclusion_loop inclusion_step inclusion_end
  verify_inclusion leaf_hash leaf_index tree_size proof root =
      if tree_size == 0 || leb tree_size leaf_index
      then false
      else inclusion_end (inclusion_loop proof leaf_index (tree_size - 1) leaf_hash) root

  -- `subproof`, on fuel.
  pub subproof_loop : ℕ → List Hash → ℕ → Bool → Run (List Hash)
  subproof_loop zero leaves m b = panic
  subproof_loop (suc f) leaves m b =
      let n = length leaves in
      let here = (if b then done [] else (do h ← unwrap (← mth sha256 leaves); done (h ∷ []))) in
      let deeper = (do
        at ← k_usize n
        (lower, upper) ← split_at at leaves
        let left = (do
          p ← subproof_loop f lower m b
          h ← unwrap (← mth sha256 upper)
          done (p ++ h ∷ []))
        let right = (do
          p ← subproof_loop f upper (m - at) false
          h ← unwrap (← mth sha256 lower)
          done (p ++ h ∷ []))
        if leb m at then left else right) in
      if m == n then here else deeper

  unfoldable pub subproof : List Hash → ℕ → Bool → Run (List Hash)
  unfolding subproof_loop
  subproof leaves m b = subproof_loop (length leaves) leaves m b

  unfoldable pub consistency_proof : List Hash → ℕ → Run (Result (List Hash))
  unfolding subproof
  consistency_proof leaves old_size =
      let new_size = length leaves in
      let proof = (do p ← subproof leaves old_size true; done (ok p)) in
      if old_size == 0 || ltb new_size old_size
      then done (err (invalid_sizes old_size new_size))
      else if old_size == new_size
      then done (ok [])
      else proof

  -- `verify_subproof`, on fuel. The iterator is the list of what it has not yet given; the result
  -- is `None`, or the two roots and what the iterator has left.
  unfoldable pub verify_subproof_loop :
      ℕ → ℕ → ℕ → Hash → List Hash → Bool → Run (Option (Hash × Hash × List Hash))
  verify_subproof_loop zero m n old_root iter b = panic
  verify_subproof_loop (suc f) m n old_root iter b =
      let here =
        if b
        then done (some (old_root, old_root, iter))
        else try (next iter) (λ (h, rest). done (some (h, h, rest))) in
      let deeper = (do
        at ← k_usize n
        let left = try (verify_subproof_loop f m at old_root iter b) (λ (lo, ln, rest).
            try (next rest) (λ (rh, rest'). done (some (lo, node_hash sha256 ln rh, rest'))))
        let right =
            try (verify_subproof_loop f (m - at) (n - at) old_root iter false) (λ (ro, rn, rest).
              try (next rest) (λ (lh, rest').
                done (some (node_hash sha256 lh ro, node_hash sha256 lh rn, rest'))))
        if leb m at then left else right) in
      if m == n then here else deeper

  -- Every level of the recursion has a smaller size, so the size is enough fuel.
  unfoldable pub verify_consistency : ℕ → ℕ → List Hash → Hash → Hash → Run Bool
  unfolding verify_subproof_loop consistency_end
  verify_consistency old_size new_size proof old_root new_root =
      let walk = (do
        result ← verify_subproof_loop new_size old_size new_size old_root proof true
        done (consistency_end result old_root new_root)) in
      if old_size == new_size
      then done (length proof == 0 && bytes_eq old_root new_root)
      else if old_size == 0 || ltb new_size old_size
      then done false
      else walk
