-- ===== src/Prelude/Panics.antt =====
-- Code that may panic: an `unwrap` on `None`, an index out of range, a failed assertion.
use Prim.Native.Nat.{ℕ, ◌≤◌}
use mathlib.Core.Path.{◌≡◌}
use mathlib.Core.Option.{Option, none, some}
use mathlib.Core.List.{List}
use settled.Prelude.Tests.{leb, if◌then◌else◌, le→leb}
use settled.Prelude.Lists.{length, take, drop}

pub data Run {ℓ} (A : Type ℓ) : Type ℓ where
  done : A → Run A
  panic : Run A

infixl 5 ◌>>=◌
abbrev pub ◌>>=◌ {ℓ κ} : {A : Type ℓ} {B : Type κ} → Run A → (A → Run B) → Run B
done a >>= f = f a
panic >>= f = panic

abbrev pub unwrap {ℓ} : {A : Type ℓ} → Option A → Run A
unwrap none = panic
unwrap (some a) = done a

-- The slices `xs[..n]` and `xs[n..]`.
abbrev pub split_at {ℓ} : {A : Type ℓ} → ℕ → List A → Run (List A × List A)
split_at n xs = if leb n (length xs) then done (take n xs, drop n xs) else panic

pub split_at_lem {ℓ} :
    {A : Type ℓ} (n : ℕ) (xs : List A) → n ≤ length xs → split_at n xs ≡ done (take n xs, drop n xs)
split_at_lem n xs h = rw (le→leb n (length xs) h)
