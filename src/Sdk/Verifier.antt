-- ===== src/Sdk/Verifier.antt =====
-- sdks/rust/src/verifier.rs: proofs and tree heads checked by a client.
pub mod SameAsCore
pub mod Heads
mod Examples
use settled.Prelude.{
  ℕ, zero, suc, ◌+◌, ◌-◌, ◌/◌, ◌%◌, List, [], ◌∷◌, ◌++◌, Option, none, some, Bool, true, false,
  ◌&&◌, ◌||◌, not, ltb, leb, ◌==◌, if◌then◌else◌, length, get_elem?, be_bytes, ℤ, bit_pattern, lebℤ,
  Run, done, panic, ◌>>=◌,
}
use mathlib.Core.Option
use settled.Core.Hash.{Bytes, Hash, bytes_eq}
use settled.Core.Split.{sdk_split}
use settled.Core.Ed25519.{Ed25519}

-- `while fn_ != 0 && (fn_ & 1) == 0`; a number is enough fuel for itself.
pub strip_loop : ℕ → ℕ → ℕ → ℕ × ℕ
strip_loop zero fn sn = (fn, sn)
strip_loop (suc f) fn sn =
    let rest = strip_loop f (fn / 2) (sn / 2) in
    if not (fn == 0) && fn % 2 == 0 then rest else (fn, sn)

-- The `next` closure: the hash at `idx`, if the proof has one.
pub next : List Hash → ℕ → Option (Hash × ℕ)
next proof idx =
    if leb (length proof) idx then none else Option.map (λ h. (h, idx + 1)) (get_elem? proof idx)

-- `?` on an option, and on one that a run gives.
pub try {ℓ κ} : {A : Type ℓ} {B : Type κ} → Option A → (A → Option B) → Option B
try none f = none
try (some a) f = f a

abbrev pub try_run {ℓ κ} :
    {A : Type ℓ} {B : Type κ} → Run (Option A) → (A → Option B) → Run (Option B)
try_run panic f = panic
try_run (done a) f = done (try a f)

module _ (sha256 : Bytes → Hash) where
  unfoldable pub leaf_hash : Bytes → Hash
  leaf_hash data_bytes = sha256 (0x00 ∷ data_bytes)

  unfoldable pub node_hash : Hash → Hash → Hash
  node_hash left right = sha256 (0x01 ∷ left ++ right)

  -- `for step in proof`, and the test after it.
  pub inclusion_loop : List Hash → ℕ → ℕ → Hash → Hash → Bool
  inclusion_loop [] fn sn r root = sn == 0 && bytes_eq r root
  inclusion_loop (step ∷ proof) fn sn r root =
      let (fn', sn') = strip_loop fn fn sn in
      let right = inclusion_loop proof (fn' / 2) (sn' / 2) (node_hash step r) root in
      let left = inclusion_loop proof (fn / 2) (sn / 2) (node_hash r step) root in
      if sn == 0 then false else if not (fn % 2 == 0) || fn == sn then right else left

  unfoldable pub verify_inclusion : Hash → ℕ → ℕ → List Hash → Hash → Bool
  unfolding inclusion_loop strip_loop node_hash
  verify_inclusion leaf leaf_index tree_size proof root =
      if tree_size == 0 || leb tree_size leaf_index
      then false
      else inclusion_loop proof leaf_index (tree_size - 1) leaf root

  -- `verify_subproof`, on fuel, from the position `idx` in the proof.
  pub verify_subproof_loop :
      ℕ → ℕ → ℕ → Hash → List Hash → ℕ → Bool → Run (Option (Hash × Hash × ℕ))
  verify_subproof_loop zero m n old_root proof idx b = panic
  verify_subproof_loop (suc f) m n old_root proof idx b =
      let here =
        if b
        then some (old_root, old_root, idx)
        else try (next proof idx) (λ (h, idx'). some (h, h, idx')) in
      let deeper = (do
        sp ← sdk_split n
        let left = try_run (verify_subproof_loop f m sp old_root proof idx b) (λ (lo, ln, idx').
            try (next proof idx') (λ (rh, idx''). some (lo, node_hash ln rh, idx'')))
        let right =
            try_run (verify_subproof_loop f (m - sp) (n - sp) old_root proof idx false)
              (λ (ro, rn, idx').
                try (next proof idx')
                  (λ (lh, idx''). some (node_hash lh ro, node_hash lh rn, idx'')))
        if leb m sp then left else right) in
      if m == n then done here else deeper

  pub consistency_end : List Hash → Option (Hash × Hash × ℕ) → Hash → Hash → Bool
  consistency_end proof none old_root new_root = false
  consistency_end proof (some (computed_old, computed_new, idx)) old_root new_root =
      idx == length proof && bytes_eq computed_old old_root && bytes_eq computed_new new_root

  -- Every level of the recursion has a smaller size, so the size is enough fuel.
  unfoldable pub verify_consistency : ℕ → ℕ → List Hash → Hash → Hash → Run Bool
  unfolding verify_subproof_loop consistency_end next try node_hash
  verify_consistency old_size new_size proof old_root new_root =
      let walk = (do
        result ← verify_subproof_loop new_size old_size new_size old_root proof 0 true
        done (consistency_end proof result old_root new_root)) in
      if old_size == new_size
      then done (length proof == 0 && bytes_eq old_root new_root)
      else if old_size == 0 || ltb new_size old_size
      then done false
      else walk

unfoldable pub signing_payload : ℕ → Hash → ℤ → Bytes
signing_payload tree_size root_hash timestamp_ns =
    be_bytes 8 tree_size ++ (root_hash ++ be_bytes 8 (bit_pattern timestamp_ns))

pub record KeyRecord : Type 0 where
  pub version : ℕ
  pub public_key : Bytes
  pub activated_at_tree_size : ℕ

-- `chain.iter().find(|r| r.version == key_version)`.
unfoldable pub find_version : List KeyRecord → ℕ → Option KeyRecord
find_version [] key_version = none
find_version (r ∷ chain) key_version =
    if r.version == key_version then some r else find_version chain key_version

module _ (e : Ed25519) where
  -- `verify_tree_head`, after the two conversions to arrays.
  unfoldable pub verify_tree_head : ℕ → Hash → ℤ → Bytes → Bytes → Bool
  verify_tree_head tree_size root_hash timestamp_ns signature public_key =
      if not (length public_key == 32)
      then false
      else if not (length signature == 64)
      then false
      else elim (e.from_bytes public_key) [
        | none ↦ false
        | some vk ↦ e.verify vk (signing_payload tree_size root_hash timestamp_ns) signature
      ]

  -- `let Some(record) = … else { return false }`, and what follows it.
  unfoldable pub verify_with_record : ℕ → Hash → ℤ → Bytes → Option KeyRecord → Bool
  verify_with_record tree_size root_hash timestamp_ns signature none = false
  verify_with_record tree_size root_hash timestamp_ns signature (some record') =
      verify_tree_head tree_size root_hash timestamp_ns signature record'.public_key

  unfoldable pub verify_tree_head_with_chain : ℕ → Hash → ℤ → Bytes → ℕ → List KeyRecord → Bool
  verify_tree_head_with_chain tree_size root_hash timestamp_ns signature key_version chain =
      verify_with_record tree_size root_hash timestamp_ns signature (find_version chain key_version)

  unfoldable pub verify_tree_head_sequential : ℕ → Hash → ℤ → Bytes → Bytes → ℤ → Bool
  verify_tree_head_sequential tree_size root_hash timestamp_ns signature public_key previous =
      if lebℤ timestamp_ns previous
      then false
      else verify_tree_head tree_size root_hash timestamp_ns signature public_key
