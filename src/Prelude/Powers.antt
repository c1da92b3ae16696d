-- ===== src/Prelude/Powers.antt =====
-- Powers of two.
use Prim.Native.Nat.{ℕ, zero, suc, ◌+◌, ◌-◌, ◌*◌, ◌^◌, ◌≤◌, ◌<◌}
use mathlib.Core.Path.{◌≡◌}
use native.Mathlib.Nat.{pow-suc, one-le-pow}
use native.Mathlib.Omega.{arith}

pub two_pow-suc : (n : ℕ) → 2 ^ suc n ≡ 2 * 2 ^ n
two_pow-suc n = omega (arith, pow-suc 2 n)

pub two_pow_pos : (n : ℕ) → 0 < 2 ^ n
two_pow_pos n = omega (arith, one-le-pow n 2)

pub lt-two_pow : (n : ℕ) → n < 2 ^ n
lt-two_pow zero = omega arith
lt-two_pow (suc n) = omega (arith, lt-two_pow n, two_pow-suc n)

pub two_pow-add : (m n : ℕ) → 2 ^ (m + n) ≡ 2 ^ m * 2 ^ n
two_pow-add zero n = let e : zero + n ≡ n = omega arith in rw e (omega arith)
two_pow-add (suc m) n =
    let e : suc m + n ≡ suc (m + n) = omega arith in
    rw (e, two_pow-suc (m + n), two_pow-suc m, two_pow-add m n) (omega arith)

pub two_pow_mono : (m n : ℕ) → m ≤ n → 2 ^ m ≤ 2 ^ n
two_pow_mono m n h =
    let e : n ≡ m + (n - m) = omega arith in
    rw (e, two_pow-add m (n - m)) (grind (arith, two_pow_pos (n - m)))

pub two_pow-lt→lt : (m n : ℕ) → 2 ^ m < 2 ^ n → m < n
two_pow-lt→lt m n h = grind (arith, two_pow_mono n m)
