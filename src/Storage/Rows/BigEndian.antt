-- ===== src/Storage/Rows/BigEndian.antt =====
-- Big-endian keys have the order of their numbers.
use settled.Prelude.{
  ℕ, zero, suc, ◌+◌, ◌*◌, ◌/◌, ◌^◌, ◌<◌, [], ◌∷◌, ◌≡◌, sym, ap₂, ◌∙◌, arith, inl, inr, ltb, lt→ltb,
  ltb_ge, ==_iff, ==_ne, le-cases, eq-cases, All, length, be_bytes, length-be_bytes, from_be_bytes,
  from_be_bytes-be_bytes,
}
use native.Mathlib.Nat.{mod-lt}
use settled.Core.Hash.{Bytes}
use settled.Core.Split.{IsU64}
use settled.Storage.Rows.{lex_lt, u64_key}

abbrev IsByte : ℕ → Type 0
IsByte b = b < 256

be_bytes-IsByte : (w n : ℕ) → All IsByte (be_bytes w n)
be_bytes-IsByte zero n = tt
be_bytes-IsByte (suc w) n = (mod-lt (n / 256 ^ w) {m = 256} (omega arith), be_bytes-IsByte w n)

from_be_bytes-lt :
    (xs ys : Bytes) (a b : ℕ)
    → length xs ≡ length ys
    → All IsByte xs
    → a < b
    → from_be_bytes a xs < from_be_bytes b ys
from_be_bytes-lt [] [] a b l h lt = lt
from_be_bytes-lt [] (y ∷ ys) a b l h lt = absurd (omega arith)
from_be_bytes-lt (x ∷ xs) [] a b l h lt = absurd (omega arith)
from_be_bytes-lt (x ∷ xs) (y ∷ ys) a b l (hx, h) lt =
    from_be_bytes-lt xs ys (a * 256 + x) (b * 256 + y) (omega arith) h (omega arith)

lex_lt-eq_ltb :
    (xs ys : Bytes) (a : ℕ)
    → length xs ≡ length ys
    → All IsByte xs
    → All IsByte ys
    → lex_lt xs ys ≡ ltb (from_be_bytes a xs) (from_be_bytes a ys)
unfolding lex_lt
lex_lt-eq_ltb [] [] a l hx hy = sym (ltb_ge a a (omega arith))
lex_lt-eq_ltb [] (y ∷ ys) a l hx hy = absurd (omega arith)
lex_lt-eq_ltb (x ∷ xs) [] a l hx hy = absurd (omega arith)
lex_lt-eq_ltb (x ∷ xs) (y ∷ ys) a l (bx, hx) (by, hy) = elim (le-cases y x) [
  | inl ge ↦ elim (eq-cases x y) [
    | inl e ↦
        rw (ltb_ge x y ge, (==_iff x y).1 e, e)
          (lex_lt-eq_ltb xs ys (a * 256 + y) (omega arith) hx hy)
    | inr ne ↦ rw (
      ltb_ge x y ge,
      ==_ne x y ne,
      ltb_ge (from_be_bytes (a * 256 + x) xs) (from_be_bytes (a * 256 + y) ys) (
          omega (
            arith,
            from_be_bytes-lt ys xs (a * 256 + y) (a * 256 + x) (omega arith) hy (omega arith),
          )),
    )
  ]
  | inr lt ↦ rw (
    lt→ltb x y lt,
    lt→ltb (from_be_bytes (a * 256 + x) xs) (from_be_bytes (a * 256 + y) ys)
        (from_be_bytes-lt xs ys (a * 256 + x) (a * 256 + y) (omega arith) hx (omega arith)),
  )
]

pub lex_lt-be_bytes :
    (w m n : ℕ) → m < 256 ^ w → n < 256 ^ w → lex_lt (be_bytes w m) (be_bytes w n) ≡ ltb m n
lex_lt-be_bytes w m n hm hn =
    lex_lt-eq_ltb (be_bytes w m) (be_bytes w n) 0 (length-be_bytes w m ∙ sym (length-be_bytes w n))
      (be_bytes-IsByte w m) (be_bytes-IsByte w n)
    ∙ ap₂ ltb (from_be_bytes-be_bytes w m hm) (from_be_bytes-be_bytes w n hn)

pub lex_lt-u64_key : (m n : ℕ) → IsU64 m → IsU64 n → lex_lt (u64_key m) (u64_key n) ≡ ltb m n
unfolding u64_key
lex_lt-u64_key m n hm hn = lex_lt-be_bytes 8 m n hm hn

pub length-u64_key : (n : ℕ) → length (u64_key n) ≡ 8
unfolding u64_key
length-u64_key n = length-be_bytes 8 n

pub from_be_bytes-u64_key : (n : ℕ) → IsU64 n → from_be_bytes 0 (u64_key n) ≡ n
unfolding u64_key
from_be_bytes-u64_key n h = from_be_bytes-be_bytes 8 n h
