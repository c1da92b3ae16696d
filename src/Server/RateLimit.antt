-- ===== src/Server/RateLimit.antt =====
-- crates/settled-server/src/rate_limit.rs: a token bucket over floating-point numbers, which are an
-- interface: the operations that the code uses, and the order that they keep on numbers.
pub mod Bounds
use settled.Prelude.{ℕ, ◌-◌, Bool, true, false, ◌≡◌, if◌then◌else◌}

-- Numbers of type f64, without NaN: `leb x y` is `x <= y`.
pub record Floats : Type 1 where
  pub F64 : Type 0
  pub of_u32 : ℕ → F64
  pub add : F64 → F64 → F64
  pub sub : F64 → F64 → F64
  pub mul : F64 → F64 → F64
  pub min : F64 → F64 → F64
  pub leb : F64 → F64 → Bool
  -- `Duration::as_secs_f64` of nanoseconds.
  pub as_secs_f64 : ℕ → F64
  -- What is not negative stays so, and the lesser of two numbers is not above the second.
  pub leb_refl : (x : F64) → leb x x ≡ true
  pub leb-of_u32 : (n : ℕ) → leb (of_u32 0) (of_u32 n) ≡ true
  pub leb-as_secs_f64 : (n : ℕ) → leb (of_u32 0) (as_secs_f64 n) ≡ true
  pub leb-add :
      (x y : F64)
      → leb (of_u32 0) x ≡ true
      → leb (of_u32 0) y ≡ true
      → leb (of_u32 0) (add x y) ≡ true
  pub leb-mul :
      (x y : F64)
      → leb (of_u32 0) x ≡ true
      → leb (of_u32 0) y ≡ true
      → leb (of_u32 0) (mul x y) ≡ true
  pub leb-min :
      (x y : F64)
      → leb (of_u32 0) x ≡ true
      → leb (of_u32 0) y ≡ true
      → leb (of_u32 0) (min x y) ≡ true
  pub min-leb : (x y : F64) → leb (min x y) y ≡ true
  pub leb-sub : (x y : F64) → leb y x ≡ true → leb (of_u32 0) (sub x y) ≡ true
  pub sub-leb : (x y z : F64) → leb (of_u32 0) y ≡ true → leb x z ≡ true → leb (sub x y) z ≡ true

module _ (f : Floats) where
  -- `last` is a reading of the monotonic clock in nanoseconds.
  pub record Bucket : Type 0 where
    pub tokens : f.F64
    pub capacity : f.F64
    pub rate : f.F64
    pub last : ℕ

  -- `Bucket::new`.
  unfoldable pub new : ℕ → ℕ → Bucket
  new now rate_per_sec =
      let cap = f.of_u32 rate_per_sec in
      record { tokens = cap; capacity = cap; rate = cap; last = now }

  -- The first lines of both operations: the bucket fills with the time that has passed.
  unfoldable pub refill : ℕ → Bucket → Bucket
  refill now b =
      let elapsed = f.as_secs_f64 (now - b.last) in
      record b { tokens = f.min (f.add b.tokens (f.mul elapsed b.rate)) b.capacity; last = now }

  -- The last lines of both: `tokens >= amount` is the test.
  unfoldable pub take_tokens : f.F64 → Bucket → Bool × Bucket
  take_tokens amount b =
      if f.leb amount b.tokens
      then (true, record b { tokens = f.sub b.tokens amount })
      else (false, b)

  unfoldable pub try_consume : ℕ → Bucket → Bool × Bucket
  try_consume now b = take_tokens (f.of_u32 1) (refill now b)

  unfoldable pub try_consume_n : ℕ → ℕ → Bucket → Bool × Bucket
  try_consume_n now n b = take_tokens (f.of_u32 n) (refill now b)
