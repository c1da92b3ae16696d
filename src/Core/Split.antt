-- ===== src/Core/Split.antt =====
-- The split point of a Merkle tree: `k` of crates/settled-core/src/merkle.rs and of proof.rs, and
-- `split` of sdks/rust/src/verifier.rs. The proofs are in the child.
pub mod Bounds
use settled.Prelude.{
  ℕ, zero, suc, ◌+◌, ◌-◌, ◌*◌, ◌/◌, ◌%◌, ◌^◌, ◌<◌, ltb, leb, ◌==◌, if◌then◌else◌, Run, done, panic,
}

abbrev pub IsU64 : ℕ → Type 0
IsU64 n = n < 2 ^ 64

-- How many binary digits `n` has; a number is its own fuel.
bit_length_loop : ℕ → ℕ → ℕ
bit_length_loop zero n = 0
bit_length_loop (suc f) n = let rest = bit_length_loop f (n / 2) in if n == 0 then 0 else 1 + rest

unfoldable pub bit_length : ℕ → ℕ
unfolding bit_length_loop
bit_length n = bit_length_loop n n

-- `u64::leading_zeros`.
unfoldable pub leading_zeros : ℕ → ℕ
unfolding bit_length
leading_zeros n = 64 - bit_length n

-- `k` of merkle.rs, with its `assert!(n > 1)`.
unfoldable pub k : ℕ → Run ℕ
unfolding leading_zeros
k n = if leb n 1 then panic else done (2 ^ (63 - leading_zeros (n - 1)))

-- `k` of proof.rs, where `usize` has 64 bits: below 2 a subtraction overflows, which panics.
unfoldable pub k_usize : ℕ → Run ℕ
unfolding leading_zeros
k_usize n =
    if ltb n 1
    then panic
    else if ltb (64 - 1) (leading_zeros (n - 1))
    then panic
    else done (2 ^ (64 - 1 - leading_zeros (n - 1)))

-- `split` of the SDK: `while p * 2 < n { p <<= 1 }`, on fuel, with the wrap-around of `u64`. A loop
-- that is not over within its rounds is `panic`: at `p = 2^63` a debug build panics on `p * 2`, and
-- in a release build `p` becomes 0 and the loop goes on for ever.
unfoldable pub split_loop : ℕ → ℕ → ℕ → Run ℕ
split_loop zero n p = panic
split_loop (suc f) n p =
    let double = p * 2 % 2 ^ 64 in
    let rest = split_loop f n double in if ltb double n then rest else done p

-- A loop that ends does so within 64 rounds.
unfoldable pub sdk_split : ℕ → Run ℕ
unfolding split_loop
sdk_split n = split_loop 64 n 1

-- The same number for every size, with no width: the largest power of two below `n`, from 2 on.
unfoldable pub split : ℕ → ℕ
unfolding bit_length
split n = 2 ^ (bit_length (n - 1) - 1)
