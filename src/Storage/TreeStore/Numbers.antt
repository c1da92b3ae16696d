-- ===== src/Storage/TreeStore/Numbers.antt =====
-- Blocks of a power of two: the arithmetic of `compute_nodes_from_leaves`.
use settled.Prelude.{
  ℕ, suc, ◌+◌, ◌-◌, ◌*◌, ◌/◌, ◌%◌, ◌^◌, ◌≤◌, ◌<◌, ◌≡◌, ap, sym, ◌∙◌, arith, le-cases, inl, inr,
  two_pow-suc, two_pow-add,
}
use native.Mathlib.Nat.{mod-add-div, mod-lt, mul-mod_right, mul-le-mul_left}

same_factor : (b q r : ℕ) → 0 < b → b * r < b * q → b * q ≤ b * r + b → q ≡ r + 1
same_factor b q r h lo hi = elim (le-cases q r) [
  | inl le ↦ absurd (omega (arith, mul-le-mul_left b le))
  | inr more ↦ elim (le-cases q (r + 1)) [
    | inl le ↦ omega arith
    | inr much ↦
        let two_more : r + 2 ≤ q = omega arith in
        let product : b * (r + 2) ≡ b * r + 2 * b = grind arith in
        absurd (omega (arith, mul-le-mul_left b two_more, product))
  ]
]

pub same_block : (b i j : ℕ) → 0 < b → b * (i + 1) ≡ b * (j + 1) → i ≡ j
same_block b i j h e = elim (le-cases i j) [
  | inl le ↦ elim (le-cases j i) [
    | inl ge ↦ omega arith
    | inr more ↦
        let step : i + 1 + 1 ≤ j + 1 = omega arith in
        let product : b * (i + 1 + 1) ≡ b * (i + 1) + b = grind arith in
        absurd (omega (arith, mul-le-mul_left b step, product))
  ]
  | inr more ↦
      let step : j + 1 + 1 ≤ i + 1 = omega arith in
      let product : b * (j + 1 + 1) ≡ b * (j + 1) + b = grind arith in
      absurd (omega (arith, mul-le-mul_left b step, product))
]

-- The two halves of a block.
pub left_half : (g i : ℕ) → 2 ^ g * (2 * i + 1) + 2 ^ g ≡ 2 ^ suc g * (i + 1)
left_half g i = rw (two_pow-suc g) (grind arith)

pub right_half : (g i : ℕ) → 2 ^ g * (2 * i + 1 + 1) ≡ 2 ^ suc g * (i + 1)
right_half g i = rw (two_pow-suc g) (grind arith)

pub left_start : (g i : ℕ) → 2 ^ g * (2 * i) ≡ 2 ^ suc g * i
left_start g i = rw (two_pow-suc g) (grind arith)

pub right_start : (g i : ℕ) → 2 ^ g * (2 * i + 1) ≡ 2 ^ suc g * i + 2 ^ g
right_start g i = rw (two_pow-suc g) (grind arith)

pub block_end : (b j : ℕ) → 0 < b → (j + 1) % b ≡ 0 → b * (j / b + 1) ≡ j + 1
block_end b j h e =
    let here = mod-add-div j b in
    let next = mod-add-div (j + 1) b in
    let q = (j + 1) / b in
    let same : q ≡ j / b + 1 =
      same_factor b q (j / b) h (omega (arith, here, next, e))
        (omega (arith, here, next, e, mod-lt j h)) in
    ap (λ (t : ℕ). b * t) (sym same) ∙ omega (arith, next, e)

pub whole_blocks : (b m n : ℕ) → n ≡ b * m → n % b ≡ 0
whole_blocks b m n e = rw e (mul-mod_right b m)

-- The end of a block is the end of a smaller block.
pub smaller_block : (h l i n : ℕ) → h ≤ l → 2 ^ l * (i + 1) ≡ n → n % 2 ^ h ≡ 0
smaller_block h l i n le e =
    let at : l ≡ h + (l - h) = omega arith in
    let product : 2 ^ h * 2 ^ (l - h) * (i + 1) ≡ 2 ^ h * (2 ^ (l - h) * (i + 1)) = grind arith in
    whole_blocks (2 ^ h) (2 ^ (l - h) * (i + 1)) n (
      sym e
      ∙ ap (λ (t : ℕ). 2 ^ t * (i + 1)) at
      ∙ ap (λ (t : ℕ). t * (i + 1)) (two_pow-add h (l - h))
      ∙ product)
