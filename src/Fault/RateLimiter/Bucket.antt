-- ===== src/Fault/RateLimiter/Bucket.antt =====
-- The token bucket over natural numbers that the rate limiter implements, with no wrap-around.
use microservices_base.Prelude.{
  ℕ, ◌+◌, ◌-◌, ◌*◌, ◌/◌, ◌<◌, ◌≤◌, ◌≡◌, Bool, true, false, arith, ltb, leb, if◌then◌else◌,
  Bool-cases, inl, inr,
}
use microservices_base.Prelude.Int.{ℤ, pos}
use microservices_base.Prelude.Word.{half_word, wrap64, sub_time}
use microservices_base.Fault.RateLimiter.{RateLimiter, refill, allow, allow_n, spend}

pub record Bucket : Type 0 where
  pub tokens : ℕ
  pub last : ℕ

-- `rate` tokens for each full `window`, and at most `rate + burst` in all.
pub record Limits : Type 0 where
  pub rate : ℕ
  pub window : ℕ
  pub burst : ℕ

abbrev pub least : ℕ → ℕ → ℕ
least a b = if ltb b a then b else a

module _ (c : Limits) where
  abbrev pub gain : ℕ → Bucket → ℕ
  gain now b = (now - b.last) / c.window * c.rate

  unfoldable pub top_up : ℕ → Bucket → Bucket
  top_up now b =
      if ltb 0 (gain now b)
      then record { tokens = least (b.tokens + gain now b) (c.rate + c.burst); last = now }
      else b

  unfoldable pub take_n : ℕ → ℕ → Bucket → Bucket × Bool
  take_n n now b =
      let b' = top_up now b in
      if leb n b'.tokens then (record b' { tokens = b'.tokens - n }, true) else (b', false)

  -- What the code needs to stay clear of overflow, and is far from in any deployment: no more
  -- than a token per nanosecond, fewer than 2 ^ 62 tokens, and calls within 2 ^ 62 nanoseconds.
  pub record IsSane : Type 0 where
    pub window_pos : 0 < c.window
    pub rate_pos : 0 < c.rate
    pub slow : c.rate ≤ c.window
    pub small : c.rate + c.burst < 4611686018427387904

  pub record Represents (rl : RateLimiter) (b : Bucket) : Type 0 where
    pub rate_eq : rl.config.rate ≡ pos c.rate
    pub window_eq : rl.config.window ≡ pos c.window
    pub burst_eq : rl.config.burst_size ≡ pos c.burst
    pub tokens_eq : rl.tokens ≡ pos b.tokens
    pub last_eq : rl.last_refill ≡ pos b.last
    pub full : b.tokens ≤ c.rate + c.burst

gain-le : (x w r : ℕ) → r ≤ w → x / w * r ≤ x
gain-le x w r h = grind arith

pub wrap64_pos : (n : ℕ) → n < half_word → wrap64 (pos n) ≡ pos n
unfolding wrap64
wrap64_pos n h = ground arith

pub sub_time_pos :
    (now t : ℕ) → t ≤ now → now - t < half_word → sub_time (pos now) (pos t) ≡ pos (now - t)
unfolding sub_time
sub_time_pos now t h k = ground arith

module _ (c : Limits) (sane : IsSane c) where
  pub refill-Represents :
      (now : ℕ) (rl : RateLimiter) (b : Bucket)
      → Represents c rl b
      → b.last ≤ now
      → now - b.last < 4611686018427387904
      → Represents c (refill (pos now) rl) (top_up c now b)
  unfolding refill top_up
  refill-Represents now rl b r later soon = ground (
    arith,
    sub_time_pos now b.last,
    gain-le (now - b.last) c.window c.rate,
    wrap64_pos (gain c now b),
    wrap64_pos (b.tokens + gain c now b),
    wrap64_pos (c.rate + c.burst),
  )

  spend-Represents :
      (n : ℕ) (rl : RateLimiter) (b : Bucket)
      → Represents c rl b
      → Represents c
          (spend (pos n) rl).0
          (if leb n b.tokens then record b { tokens = b.tokens - n } else b)
        × ((spend (pos n) rl).1 ≡ leb n b.tokens)
  unfolding spend
  spend-Represents n rl b r = elim (Bool-cases (leb n b.tokens)) [
    | inl fits ↦ ground (arith, wrap64_pos (b.tokens - n))
    | inr over ↦ ground (arith, wrap64_pos (b.tokens - n))
  ]

  -- `AllowN` on 64-bit integers is the bucket's operation.
  pub allow_n-Represents :
      (n now : ℕ) (rl : RateLimiter) (b : Bucket)
      → Represents c rl b
      → b.last ≤ now
      → now - b.last < 4611686018427387904
      → Represents c (allow_n (pos n) (pos now) rl).0 (take_n c n now b).0
        × ((allow_n (pos n) (pos now) rl).1 ≡ (take_n c n now b).1)
  unfolding allow_n take_n
  allow_n-Represents n now rl b r later soon =
      let (kept, same) =
        spend-Represents n (refill (pos now) rl) (top_up c now b)
          (refill-Represents now rl b r later soon) in
      elim (Bool-cases (leb n (top_up c now b).tokens)) [
        | inl fits ↦ (rw fits (rw fits at kept), rw fits (rw fits at same))
        | inr over ↦ (rw over (rw over at kept), rw over (rw over at same))
      ]

-- `Allow` asks for one token.
pub allow-eq : (now : ℤ) (rl : RateLimiter) → allow now rl ≡ allow_n (pos 1) now rl
unfolding allow allow_n
allow-eq now rl = ground arith
