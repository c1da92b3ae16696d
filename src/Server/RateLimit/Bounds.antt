-- ===== src/Server/RateLimit/Bounds.antt =====
-- The tokens of a bucket stay within its capacity.
use settled.Prelude.{ℕ, ◌-◌, true, ◌≡◌, inl, inr, Bool-cases, List, [], ◌∷◌}
use settled.Server.RateLimit.{Floats, Bucket, refill, take_tokens, try_consume, try_consume_n}

module _ (f : Floats) where
  abbrev pub IsNonNegative : f.F64 → Type 0
  IsNonNegative x = f.leb (f.of_u32 0) x ≡ true

  pub record IsBucket (b : Bucket f) : Type 0 where
    pub rate_lem : IsNonNegative b.rate
    pub capacity_lem : IsNonNegative b.capacity
    pub low : IsNonNegative b.tokens
    pub high : f.leb b.tokens b.capacity ≡ true

  refill-IsBucket : (now : ℕ) (b : Bucket f) → IsBucket b → IsBucket (refill f now b)
  unfolding refill
  refill-IsBucket now b v =
      let elapsed = f.as_secs_f64 (now - b.last) in
      let filled = f.add b.tokens (f.mul elapsed b.rate) in
      record {
        rate_lem = v.rate_lem;
        capacity_lem = v.capacity_lem;
        low =
            f.leb-min filled b.capacity
              (f.leb-add b.tokens (f.mul elapsed b.rate) v.low
                (f.leb-mul elapsed b.rate (f.leb-as_secs_f64 (now - b.last)) v.rate_lem))
              v.capacity_lem;
        high = f.min-leb filled b.capacity;
      }

  take_tokens-IsBucket :
      (n : ℕ) (b : Bucket f) → IsBucket b → IsBucket (take_tokens f (f.of_u32 n) b).1
  unfolding take_tokens
  take_tokens-IsBucket n b v = elim (Bool-cases (f.leb (f.of_u32 n) b.tokens)) [
    | inl enough ↦ rw enough (record {
      rate_lem = v.rate_lem;
      capacity_lem = v.capacity_lem;
      low = f.leb-sub b.tokens (f.of_u32 n) enough;
      high = f.sub-leb b.tokens (f.of_u32 n) b.capacity (f.leb-of_u32 n) v.high;
    })
    | inr few ↦ rw few v
  ]

  pub try_consume-IsBucket :
      (now : ℕ) (b : Bucket f) → IsBucket b → IsBucket (try_consume f now b).1
  unfolding try_consume
  try_consume-IsBucket now b v = take_tokens-IsBucket 1 (refill f now b) (refill-IsBucket now b v)

  pub try_consume_n-IsBucket :
      (now n : ℕ) (b : Bucket f) → IsBucket b → IsBucket (try_consume_n f now n b).1
  unfolding try_consume_n
  try_consume_n-IsBucket now n b v =
      take_tokens-IsBucket n (refill f now b) (refill-IsBucket now b v)

  -- A call of either operation, at a time of the clock.
  pub data Call : Type 0 where
    one : ℕ → Call
    several : ℕ → ℕ → Call

  abbrev pub run_calls : List Call → Bucket f → Bucket f
  run_calls [] b = b
  run_calls (one now ∷ calls) b = run_calls calls (try_consume f now b).1
  run_calls (several now n ∷ calls) b = run_calls calls (try_consume_n f now n b).1
