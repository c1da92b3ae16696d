-- ===== src/Core/Split/Bounds.antt =====
-- What the split point is: the largest power of two below the size.
use settled.Prelude.{
  ℕ, zero, suc, ◌+◌, ◌-◌, ◌*◌, ◌/◌, ◌%◌, ◌^◌, ◌≤◌, ◌<◌, ◌≡◌, refl, ap, sym, ◌∙◌, inl, inr, arith,
  eq-cases, lt→ltb, ltb_ge, leb_gt, le-cases, done, panic, ◌⊎◌, two_pow_mono, two_pow-suc,
  two_pow_pos, two_pow-lt→lt,
}
use native.Mathlib.Nat.{mod-eq_of_lt}
use settled.Core.Split.{
  IsU64, bit_length_loop, bit_length, leading_zeros, k, k_usize, split_loop, sdk_split, split,
}

bit_length_loop-zero : (f : ℕ) → bit_length_loop f 0 ≡ 0
unfolding bit_length_loop
bit_length_loop-zero zero = refl
bit_length_loop-zero (suc f) = refl

bit_length_loop-suc : (f n : ℕ) → 0 < n → bit_length_loop (suc f) n ≡ 1 + bit_length_loop f (n / 2)
unfolding bit_length_loop
bit_length_loop-suc f n h = ground arith

-- A positive number lies between two powers of two.
bit_length_loop_bounds :
    (f n : ℕ)
    → 0 < n
    → n ≤ f
    → (p : ℕ) × (bit_length_loop f n ≡ suc p) × (2 ^ p ≤ n) × (n < 2 ^ suc p)
bit_length_loop_bounds zero n h l = absurd (omega arith)
bit_length_loop_bounds (suc f) n h l = elim (eq-cases (n / 2) 0) [
  | inl e ↦
      (0, bit_length_loop-suc f n h ∙ rw (e, bit_length_loop-zero f) refl, omega arith, omega arith)
  | inr ne ↦
      let (p, q, lo, hi) = bit_length_loop_bounds f (n / 2) (omega arith) (omega arith) in
      (
        suc p,
        omega (arith, bit_length_loop-suc f n h),
        omega (arith, two_pow-suc p),
        omega (arith, two_pow-suc (suc p)),
      )
]

-- The split of `n` is the power of two with `split n < n ≤ 2 * split n`.
pub split_bounds : (n : ℕ) → 1 < n → (p : ℕ) × (split n ≡ 2 ^ p) × (2 ^ p < n) × (n ≤ 2 * 2 ^ p)
unfolding split bit_length
split_bounds n h =
    let (p, q, lo, hi) = bit_length_loop_bounds (n - 1) (n - 1) (omega arith) (omega arith) in
    (
      p,
      ap (λ (t : ℕ). 2 ^ (t - 1)) q ∙ ap (λ (t : ℕ). 2 ^ t) (omega arith),
      omega arith,
      omega (arith, two_pow-suc p),
    )

-- Two powers of two with `n` between each and its double are one.
pub two_pow_between : (p q n : ℕ) → 2 ^ p < n → n ≤ 2 * 2 ^ p → 2 ^ q < n → n ≤ 2 * 2 ^ q → p ≡ q
two_pow_between p q n a b c d =
    let u : p < suc q = two_pow-lt→lt p (suc q) (omega (arith, two_pow-suc q)) in
    let v : q < suc p = two_pow-lt→lt q (suc p) (omega (arith, two_pow-suc p)) in omega arith

-- The split of any size between a power of two and its double.
pub split_unique : (p n : ℕ) → 2 ^ p < n → n ≤ 2 * 2 ^ p → split n ≡ 2 ^ p
split_unique p n lo hi =
    let (q, e, lo', hi') = split_bounds n (omega (arith, two_pow_pos p)) in
    e ∙ ap (λ (t : ℕ). 2 ^ t) (two_pow_between q p n lo' hi' lo hi)

-- The split leaves something on both sides.
pub split_inside : (n : ℕ) → 1 < n → (0 < split n) × (split n < n)
split_inside n h = let (p, e, lo, hi) = split_bounds n h in (rw e (two_pow_pos p), rw e lo)

-- The digits of a word.
bit_length_u64 : (n : ℕ) → 0 < n → IsU64 n → (1 ≤ bit_length n) × (bit_length n ≤ 64)
unfolding bit_length
bit_length_u64 n h w =
    let (p, q, lo, hi) = bit_length_loop_bounds n n h (omega arith) in
    let l : p < 64 = two_pow-lt→lt p 64 (omega arith) in (omega arith, omega arith)

-- For a size that a `u64` holds, `k` of merkle.rs does not panic and is the split.
pub k-eq-split : (n : ℕ) → 1 < n → IsU64 n → k n ≡ done (split n)
unfolding k leading_zeros split
k-eq-split n h w =
    let (a, b) = bit_length_u64 (n - 1) (omega arith) (omega arith) in
    rw (leb_gt n 1 h) (ap (λ (t : ℕ). done (2 ^ t)) (omega arith))

-- So is `k` of proof.rs.
pub k_usize-eq-split : (n : ℕ) → 1 < n → IsU64 n → k_usize n ≡ done (split n)
unfolding k_usize leading_zeros split
k_usize-eq-split n h w =
    let (a, b) = bit_length_u64 (n - 1) (omega arith) (omega arith) in
    rw (ltb_ge n 1 (omega arith), ltb_ge (64 - 1) (64 - bit_length (n - 1)) (omega arith))
      (ap (λ (t : ℕ). done (2 ^ t)) (omega arith))

-- A round that goes on to the next power of two.
split_loop-step :
    (f n q : ℕ)
    → 2 ^ q * 2 % 2 ^ 64 ≡ 2 ^ suc q
    → 2 ^ suc q < n
    → split_loop (suc f) n (2 ^ q) ≡ split_loop f n (2 ^ suc q)
unfolding split_loop
split_loop-step f n q word more = rw (word, lt→ltb (2 ^ suc q) n more)

-- The loop of the SDK stops at the largest power of two below `n`, up to 2^63.
split_loop_lem :
    (f n q : ℕ)
    → 2 ^ q < n
    → n ≤ 2 ^ 63
    → 63 ≤ q + f
    → (p : ℕ) × (split_loop f n (2 ^ q) ≡ done (2 ^ p)) × (2 ^ p < n) × (n ≤ 2 * 2 ^ p)
unfolding split_loop
split_loop_lem zero n q lo most rounds =
    let below : q < 63 = two_pow-lt→lt q 63 (omega arith) in absurd (omega arith)
split_loop_lem (suc f) n q lo most rounds =
    let word : 2 ^ q * 2 % 2 ^ 64 ≡ 2 ^ q * 2 = mod-eq_of_lt (omega arith) in
    elim (le-cases n (2 ^ q * 2)) [
      | inl stop ↦ (q, rw (word, ltb_ge (2 ^ q * 2) n stop), lo, omega arith)
      | inr more ↦
          let d : 2 ^ q * 2 ≡ 2 ^ suc q = omega (arith, two_pow-suc q) in
          let (p, r, a, b) = split_loop_lem f n (suc q) (omega arith) most (omega arith) in
          (p, split_loop-step f n q (word ∙ d) (omega arith) ∙ r, a, b)
    ]

-- The SDK splits where the server does, for every size up to 2^63.
pub sdk_split-eq-split : (n : ℕ) → 1 < n → n ≤ 2 ^ 63 → sdk_split n ≡ done (split n)
unfolding sdk_split
sdk_split-eq-split n h most =
    let (p, e, lo, hi) = split_loop_lem 64 n 0 (omega arith) most (omega arith) in
    e ∙ ap done (sym (split_unique p n lo hi))

-- Once `p` has become 0 the loop does not end.
split_loop-zero : (f n : ℕ) → 0 < n → split_loop f n 0 ≡ panic
unfolding split_loop
split_loop-zero zero n h = refl
split_loop-zero (suc f) n h = rw (lt→ltb 0 n h) (split_loop-zero f n h)

-- Above 2^63 no number of rounds is enough.
split_loop-endless : (f n q : ℕ) → q ≤ 63 → 2 ^ 63 < n → split_loop f n (2 ^ q) ≡ panic
unfolding split_loop
split_loop-endless zero n q le large = refl
split_loop-endless (suc f) n q le large = elim (eq-cases q 63) [
  | inl last ↦
      let wraps : 2 ^ q * 2 % 2 ^ 64 ≡ 0 = rw last refl in
      rw (wraps, lt→ltb 0 n (omega arith)) (split_loop-zero f n (omega arith))
  | inr other ↦
      let d : 2 ^ q * 2 ≡ 2 ^ suc q = omega (arith, two_pow-suc q) in
      let small : 2 ^ suc q ≤ 2 ^ 63 = two_pow_mono (suc q) 63 (omega arith) in
      let word : 2 ^ q * 2 % 2 ^ 64 ≡ 2 ^ q * 2 = mod-eq_of_lt (omega arith) in
      split_loop-step f n q (word ∙ d) (omega arith)
      ∙ split_loop-endless f n (suc q) (omega arith) large
]

pub sdk_split-endless : (n : ℕ) → 2 ^ 63 < n → sdk_split n ≡ panic
unfolding sdk_split
sdk_split-endless n large = split_loop-endless 64 n 0 (omega arith) large

-- For a size from 2 on that a `u64` holds, `k` of merkle.rs and `k` of proof.rs do not panic, and
-- they give the power of two that is below the size and whose double is not. The SDK's `split` gives
-- it too if the size is at most 2^63; above that its loop does not end, whatever the rounds.
pub splits_agree :
    (n : ℕ)
    → 1 < n
    → IsU64 n
    → (p : ℕ) × (k n ≡ done (2 ^ p))
      × (k_usize n ≡ done (2 ^ p))
      × (2 ^ p < n)
      × (n ≤ 2 * 2 ^ p)
      × (((n ≤ 2 ^ 63) × (sdk_split n ≡ done (2 ^ p)))
          ⊎ ((2 ^ 63 < n) × ((rounds : ℕ) → split_loop rounds n 1 ≡ panic)))
splits_agree n h w =
    let (p, e, lo, hi) = split_bounds n h in
    (
      p,
      k-eq-split n h w ∙ ap done e,
      k_usize-eq-split n h w ∙ ap done e,
      lo,
      hi,
      elim (le-cases n (2 ^ 63)) [
        | inl most ↦ inl (most, sdk_split-eq-split n h most ∙ ap done e)
        | inr large ↦ inr (large, λ rounds. split_loop-endless rounds n 0 (omega arith) large)
      ],
    )
