-- ===== src/Prelude/Words.antt =====
-- Machine words: big-endian bytes, and signed 64-bit integers.
use native.Mathlib.Nat.{
  mod-eq_of_lt, add-mul-mod_self_left, div-add-mod', mod-lt, pow-suc, one-le-pow,
}
use Prim.Native.Nat.{ℕ, zero, suc, ◌+◌, ◌-◌, ◌*◌, ◌/◌, ◌%◌, ◌^◌, ◌<◌}
use mathlib.Core.Path.{◌≡◌, refl, ap, sym, ◌∙◌}
use mathlib.Core.Bool.{Bool, true, false}
use mathlib.Core.List.{List, [], ◌∷◌}
use native.Mathlib.Omega.{arith}
use settled.Prelude.Tests.{leb}
use settled.Prelude.Lists.{length}

-- The `w` low bytes of `n`, the highest first: `to_be_bytes` of a word of `w` bytes.
abbrev pub be_bytes : ℕ → ℕ → List ℕ
be_bytes zero n = []
be_bytes (suc w) n = (n / 256 ^ w % 256) ∷ be_bytes w n

-- `from_be_bytes`, after the bytes that gave `acc`.
abbrev pub from_be_bytes : ℕ → List ℕ → ℕ
from_be_bytes acc [] = acc
from_be_bytes acc (b ∷ bs) = from_be_bytes (acc * 256 + b) bs

pub length-be_bytes : (w n : ℕ) → length (be_bytes w n) ≡ w
length-be_bytes zero n = refl
length-be_bytes (suc w) n = ap suc (length-be_bytes w n)

-- One more byte of the remainder.
mod_byte : (n p : ℕ) → 0 < p → n % (p * 256) ≡ n / p % 256 * p + n % p
mod_byte n p h =
    ap (λ (t : ℕ). t % (p * 256)) whole
    ∙ add-mul-mod_self_left low (p * 256) (n / p / 256)
    ∙ mod-eq_of_lt small
  where
    low : ℕ
    low = n / p % 256 * p + n % p

    whole : n ≡ low + p * 256 * (n / p / 256)
    whole = omega (arith, div-add-mod' n p, ap (λ (t : ℕ). t * p) (div-add-mod' (n / p) 256))

    small : low < p * 256
    small = grind (arith, mod-lt n h, mod-lt (n / p) {m = 256} (omega arith))

from_be_bytes-be_bytes_acc :
    (w n acc : ℕ) → from_be_bytes acc (be_bytes w n) ≡ acc * 256 ^ w + n % 256 ^ w
from_be_bytes-be_bytes_acc zero n acc = omega arith
from_be_bytes-be_bytes_acc (suc w) n acc = omega (
  arith,
  from_be_bytes-be_bytes_acc w n (acc * 256 + n / 256 ^ w % 256),
  mod_byte n (256 ^ w) (one-le-pow w 256 (omega arith)),
  pow-suc 256 w,
  ap (λ (t : ℕ). n % t) (pow-suc 256 w),
  ap (λ (t : ℕ). acc * t) (pow-suc 256 w),
)

-- A word comes back from its bytes.
pub from_be_bytes-be_bytes : (w n : ℕ) → n < 256 ^ w → from_be_bytes 0 (be_bytes w n) ≡ n
from_be_bytes-be_bytes w n h = omega (arith, from_be_bytes-be_bytes_acc w n 0, mod-eq_of_lt h)

pub be_bytes_injective :
    (w a b : ℕ) → a < 256 ^ w → b < 256 ^ w → be_bytes w a ≡ be_bytes w b → a ≡ b
be_bytes_injective w a b ha hb e =
    sym (from_be_bytes-be_bytes w a ha) ∙ ap (from_be_bytes 0) e ∙ from_be_bytes-be_bytes w b hb

-- `negsuc n` is -(n + 1).
pub data ℤ : Type 0 where
  pos : ℕ → ℤ
  negsuc : ℕ → ℤ

abbrev pub IsI64 : ℤ → Type 0
IsI64 (pos n) = n < 2 ^ 63
IsI64 (negsuc n) = n < 2 ^ 63

-- The bit pattern of an `i64`, as a `u64`.
abbrev pub bit_pattern : ℤ → ℕ
bit_pattern (pos n) = n
bit_pattern (negsuc n) = 2 ^ 64 - 1 - n

abbrev pub lebℤ : ℤ → ℤ → Bool
lebℤ (pos a) (pos b) = leb a b
lebℤ (pos a) (negsuc b) = false
lebℤ (negsuc a) (pos b) = true
lebℤ (negsuc a) (negsuc b) = leb b a

pub bit_pattern-lt : (a : ℤ) → IsI64 a → bit_pattern a < 256 ^ 8
bit_pattern-lt (pos n) h = omega arith
bit_pattern-lt (negsuc n) h = omega arith

pub bit_pattern_injective : (a b : ℤ) → IsI64 a → IsI64 b → bit_pattern a ≡ bit_pattern b → a ≡ b
bit_pattern_injective (pos a) (pos b) ha hb e = ap pos e
bit_pattern_injective (pos a) (negsuc b) ha hb e = absurd (omega arith)
bit_pattern_injective (negsuc a) (pos b) ha hb e = absurd (omega arith)
bit_pattern_injective (negsuc a) (negsuc b) ha hb e = ap negsuc (omega arith)
