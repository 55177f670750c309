-- ===== src/Fault/RateLimiter.antt =====
-- libs/go/src/fault/ratelimit.go: a token bucket over 64-bit integers. Each method runs under the
-- mutex; `now` is what `time.Now` returned in it.
mod Bucket
mod Rate
mod Tests
use microservices_base.Prelude.{
  String, Bool, true, false, Option, none, some, List, [], ◌∷◌, if◌then◌else◌,
}
use microservices_base.Prelude.Int.{ℤ, pos, pos_part, quot_ℕ, leb_ℤ, ltb_ℤ}
use microservices_base.Prelude.Word.{add64, sub64, mul64, sub_time}
use microservices_base.Fault.Policy.{RateLimitConfig, InvalidPolicy, validate_rate_limit}

pub record RateLimiter : Type 0 where
  pub config : RateLimitConfig
  pub tokens : ℤ
  pub last_refill : ℤ
  pub correlation_id : String
  pub service : String

-- `NewRateLimitError`.
pub record RateLimitError : Type 0 where
  pub service : String
  pub correlation_id : String
  pub limit : ℤ
  pub window : ℤ
  pub retry_after : ℤ

pub data Created : Type 0 where
  created : RateLimiter → Created
  refused : InvalidPolicy → Created

-- `NewRateLimiter`.
unfoldable pub create_limiter : ℤ → RateLimitConfig → Created
create_limiter now c = elim (validate_rate_limit c) [
  | some e ↦ refused e
  | none ↦ created (record {
    config = c;
    tokens = add64 c.rate c.burst_size;
    last_refill = now;
    correlation_id = "";
    service = "";
  })
]

unfoldable pub refill : ℤ → RateLimiter → RateLimiter
refill now rl =
    let elapsed = sub_time now rl.last_refill in
    let to_add = mul64 (quot_ℕ elapsed (pos_part rl.config.window)) rl.config.rate in
    let tokens = add64 rl.tokens to_add in
    let max_tokens = add64 rl.config.rate rl.config.burst_size in
    if ltb_ℤ (pos 0) to_add
    then record rl {
      tokens = if ltb_ℤ max_tokens tokens then max_tokens else tokens;
      last_refill = now;
    }
    else rl

-- `Allow` after the refill.
spend_one : RateLimiter → RateLimiter × Bool
spend_one rl =
    if ltb_ℤ (pos 0) rl.tokens
    then (record rl { tokens = sub64 rl.tokens (pos 1) }, true)
    else (rl, false)

unfoldable pub allow : ℤ → RateLimiter → RateLimiter × Bool
unfolding spend_one
allow now rl = spend_one (refill now rl)

-- `AllowN` after the refill.
spend : ℤ → RateLimiter → RateLimiter × Bool
spend n rl =
    if leb_ℤ n rl.tokens then (record rl { tokens = sub64 rl.tokens n }, true) else (rl, false)

unfoldable pub allow_n : ℤ → ℤ → RateLimiter → RateLimiter × Bool
unfolding spend
allow_n n now rl = spend n (refill now rl)

-- `Tokens`.
unfoldable pub token_count : ℤ → RateLimiter → RateLimiter × ℤ
token_count now rl = let rl' = refill now rl in (rl', rl'.tokens)

-- How the loop of `Wait` ends: with a token, with the context's error, or not yet.
pub data Waited {ℓ} (E : Type ℓ) : Type ℓ where
  acquired : Waited E
  cancelled : E → Waited E
  waiting : Waited E

-- `Wait`. A round is the time of its `Allow` and what the `select` after it sees: the error of the
-- cancelled context, or the timer.
unfoldable pub wait {ℓ} : {E : Type ℓ} → List (ℤ × Option E) → RateLimiter → RateLimiter × Waited E
wait [] rl = (rl, waiting)
wait ((now, done) ∷ rounds) rl =
    let (rl', allowed) = allow now rl in
    let rest = wait rounds rl' in
    if allowed then (rl', acquired) else elim done [ some e ↦ (rl', cancelled e) | none ↦ rest ]

rate_limit_error : RateLimiter → RateLimitError
rate_limit_error rl = record {
  service = rl.service;
  correlation_id = rl.correlation_id;
  limit = rl.config.rate;
  window = rl.config.window;
  retry_after = quot_ℕ rl.config.window (pos_part rl.config.rate);
}

-- What `Execute` does with its operation.
pub data Started {ℓ} (E : Type ℓ) : Type ℓ where
  runs : Started E
  limited : RateLimitError → Started E
  gave_up : E → Started E
  blocked : Started E

-- `Execute` up to the call of the operation, whose error it returns.
unfoldable pub execute {ℓ} :
    {E : Type ℓ} → ℤ → List (ℤ × Option E) → RateLimiter → RateLimiter × Started E
unfolding rate_limit_error
execute now rounds rl =
    let (rl', allowed) = allow now rl in
    let (rl'', waited) = wait rounds rl' in
    if allowed
    then (rl', runs)
    else if rl.config.wait_on_limit
    then elim waited [
      | acquired ↦ (rl'', runs)
      | cancelled e ↦ (rl'', gave_up e)
      | waiting ↦ (rl'', blocked)
    ]
    else (rl', limited (rate_limit_error rl'))

unfoldable pub set_service : String → RateLimiter → RateLimiter
set_service service rl = record rl { service = service }

unfoldable pub set_correlation_id : String → RateLimiter → RateLimiter
set_correlation_id id rl = record rl { correlation_id = id }
