-- ===== src/Fault/RateLimiter/Rate.antt =====
-- What a rate limiter grants over a row of requests.
use native.Mathlib.Nat.{le-div_iff_mul-le, mul-le-mul_right, le_refl, le_trans, div-mul-le_self}
use microservices_base.Prelude.{
  ℕ, ◌+◌, ◌-◌, ◌*◌, ◌/◌, ◌<◌, ◌≤◌, ◌≡◌, refl, Bool, true, arith, if◌then◌else◌, List, [], ◌∷◌, ap₂,
}
use microservices_base.Prelude.Int.{pos, negsuc}
use microservices_base.Prelude.Word.{half_word}
use microservices_base.Fault.Policy.{RateLimitConfig, validate_rate_limit}
use microservices_base.Fault.RateLimiter.{RateLimiter, allow_n, create_limiter, created}
use microservices_base.Fault.RateLimiter.Bucket.{
  Bucket, Limits, top_up, take_n, IsSane, Represents, allow_n-Represents, wrap64_pos,
  refill-Represents,
}

-- `AllowN(count)` at an instant.
pub record Request : Type 0 where
  pub count : ℕ
  pub at : ℕ

abbrev pub serve : List Request → RateLimiter → List Bool
serve [] rl = []
serve (r ∷ rs) rl =
    let (rl', allowed) = allow_n (pos r.count) (pos r.at) rl in allowed ∷ serve rs rl'

abbrev pub granted : List Request → List Bool → ℕ
granted (r ∷ rs) (a ∷ answers) = (if a then r.count else 0) + granted rs answers
granted _ _ = 0

-- The requests come in order of time, from one instant on and up to another.
abbrev pub Ordered : ℕ → ℕ → List Request → Type 0
Ordered from until [] = from ≤ until
Ordered from until (r ∷ rs) = (from ≤ r.at) × Ordered r.at until rs

Ordered-le : (from until : ℕ) (rs : List Request) → Ordered from until rs → from ≤ until
Ordered-le from until [] h = h
Ordered-le from until (r ∷ rs) h = omega (arith, h.0, Ordered-le r.at until rs h.1)

div-add-le : (a b w : ℕ) → 0 < w → a / w + b / w ≤ (a + b) / w
div-add-le a b w h =
    (le-div_iff_mul-le h).1 (omega (arith, div-mul-le_self a w, div-mul-le_self b w))

mul_add_mono : (x y z k : ℕ) → x + y ≤ z → x * k + y * k ≤ z * k
mul_add_mono x y z k h = omega (arith, mul-le-mul_right k h)

module _ (c : Limits) where
  abbrev pub bucket_answers : List Request → Bucket → List Bool
  bucket_answers [] b = []
  bucket_answers (r ∷ rs) b =
      let (b', allowed) = take_n c r.count r.at b in allowed ∷ bucket_answers rs b'

  gains_add :
      (l m n : ℕ)
      → 0 < c.window
      → l ≤ m
      → m ≤ n
      → (m - l) / c.window * c.rate + (n - m) / c.window * c.rate ≤ (n - l) / c.window * c.rate
  gains_add l m n w p q =
      let x = (m - l) / c.window in
      let y = (n - m) / c.window in
      let z = (n - l) / c.window in
      let whole : m - l + (n - m) ≡ n - l = omega arith in
      let le : x + y ≤ z = rw (← whole) (div-add-le (m - l) (n - m) c.window w) in
      mul_add_mono x y z c.rate le

  -- One request, with the potential of the tokens held and of those that time may still bring.
  take_n_bound :
      (n now until : ℕ) (b : Bucket)
      → 0 < c.window
      → b.last ≤ now
      → now ≤ until
      → (if (take_n c n now b).1 then n else 0)
          + ((take_n c n now b).0.tokens + (until - (take_n c n now b).0.last) / c.window * c.rate)
        ≤ b.tokens + (until - b.last) / c.window * c.rate
  unfolding take_n top_up
  take_n_bound n now until b w p q = ground (arith, gains_add b.last now until w p q)

  take_n_last : (n now : ℕ) (b : Bucket) → b.last ≤ now → (take_n c n now b).0.last ≤ now
  unfolding take_n top_up
  take_n_last n now b h = ground arith

  take_n_grows : (n now : ℕ) (b : Bucket) → b.last ≤ now → b.last ≤ (take_n c n now b).0.last
  unfolding take_n top_up
  take_n_grows n now b h = ground arith

  -- What a bucket grants in a row of requests is at most what it holds, and `rate` for each full
  -- window since its last refill.
  bucket_bound :
      (rs : List Request) (b : Bucket) (from until : ℕ)
      → 0 < c.window
      → b.last ≤ from
      → Ordered from until rs
      → granted rs (bucket_answers rs b) ≤ b.tokens + (until - b.last) / c.window * c.rate
  bucket_bound [] b from until w h o = omega arith
  bucket_bound (r ∷ rs) b from until w h o =
      let now = r.at in
      let b' = (take_n c r.count now b).0 in
      let end = Ordered-le now until rs o.1 in
      omega (
        arith,
        take_n_bound r.count now until b w (omega arith) end,
        bucket_bound rs b' now until w (take_n_last r.count now b (omega arith)) o.1,
      )

-- A configuration for the limits.
abbrev pub config_of : Limits → Bool → RateLimitConfig
config_of c wait = record {
  rate = pos c.rate;
  window = pos c.window;
  burst_size = pos c.burst;
  wait_on_limit = wait;
}

-- The bucket that a new limiter is.
abbrev pub full_at : ℕ → Limits → Bucket
full_at t c = record { tokens = c.rate + c.burst; last = t }

module _ (c : Limits) (sane : IsSane c) where
  serve_from :
      (rs : List Request) (rl : RateLimiter) (b : Bucket) (start from until : ℕ)
      → Represents c rl b
      → start ≤ b.last
      → b.last ≤ from
      → Ordered from until rs
      → until - start < 4611686018427387904
      → serve rs rl ≡ bucket_answers c rs b
  serve_from [] rl b start from until r s h o soon = refl
  serve_from (q ∷ rs) rl b start from until r s h o soon =
      let end = Ordered-le q.at until rs o.1 in
      let (kept, same) =
        allow_n-Represents c sane q.count q.at rl b r (omega arith) (omega arith) in
      let next = (take_n c q.count q.at b).0 in
      let rest =
        serve_from rs (allow_n (pos q.count) (pos q.at) rl).0 next start q.at until kept
          (le_trans s (take_n_grows c q.count q.at b (omega arith)))
          (take_n_last c q.count q.at b (omega arith)) o.1 soon in
      ap₂ ◌∷◌ same rest

  create-Represents :
      (t : ℕ) (wait : Bool) {rl : RateLimiter}
      → create_limiter (pos t) (config_of c wait) ≡ created rl
      → Represents c rl (full_at t c)
  unfolding create_limiter validate_rate_limit
  create-Represents t wait h =
      ground (arith, sane.window_pos, sane.rate_pos, sane.small, wrap64_pos (c.rate + c.burst))

  -- A new limiter of sane limits answers every row of `AllowN` requests that come in order, within
  -- 2 ^ 62 nanoseconds of its creation, as the bucket over natural numbers does: no word wraps around.
  pub serve-bucket :
      (t until : ℕ) (wait : Bool) (rs : List Request) {rl : RateLimiter}
      → create_limiter (pos t) (config_of c wait) ≡ created rl
      → Ordered t until rs
      → until - t < 4611686018427387904
      → serve rs rl ≡ bucket_answers c rs (full_at t c)
  serve-bucket t until wait rs {rl} h o soon =
      serve_from rs rl (full_at t c) t t until (create-Represents t wait h) (le_refl t) (le_refl t)
        o soon

  -- Of such a row, a new limiter grants at most `rate + burst` requests, and `rate` more for each
  -- full window since its creation.
  pub granted_bound :
      (t until : ℕ) (wait : Bool) (rs : List Request) {rl : RateLimiter}
      → create_limiter (pos t) (config_of c wait) ≡ created rl
      → Ordered t until rs
      → until - t < 4611686018427387904
      → granted rs (serve rs rl) ≤ c.rate + c.burst + (until - t) / c.window * c.rate
  granted_bound t until wait rs h o soon =
      rw (serve-bucket t until wait rs h o soon)
        (bucket_bound c rs (full_at t c) t until sane.window_pos (le_refl t) o)

  -- `AllowN` with a negative count always succeeds, and adds that many tokens to the limiter's,
  -- above the limit too.
  pub allow_n_negative :
      (k now : ℕ) (rl : RateLimiter) (b : Bucket)
      → Represents c rl b
      → b.last ≤ now
      → now - b.last < 4611686018427387904
      → k < 4611686018427387904
      → ((allow_n (negsuc k) (pos now) rl).1 ≡ true)
        × ((allow_n (negsuc k) (pos now) rl).0.tokens ≡ pos ((top_up c now b).tokens + k + 1))
  unfolding allow_n
  allow_n_negative k now rl b r later soon few =
      let kept = refill-Represents c sane now rl b r later soon in
      let fits : (top_up c now b).tokens + k + 1 < half_word =
        omega (arith, kept.full, sane.small) in
      ground (arith, kept.tokens_eq, wrap64_pos ((top_up c now b).tokens + k + 1))
