-- ===== src/Fault/RateLimiter/Tests.antt =====
-- The rate limiter at concrete inputs.
use microservices_base.Prelude.{
  ℕ, ◌≡◌, refl, true, false, List, [], ◌∷◌, arith, ◌≤◌, ◌+◌, ◌*◌, ◌/◌, ◌-◌, none,
}
use microservices_base.Prelude.Int.{pos}
use microservices_base.Prelude.Word.{wrap64, sub_time}
use microservices_base.Fault.Policy.{validate_rate_limit}
use microservices_base.Fault.RateLimiter.{
  RateLimiter, create_limiter, created, refill, allow, allow_n, wait, execute, acquired,
}
use microservices_base.Fault.RateLimiter.Bucket.{Limits, IsSane, top_up}
use microservices_base.Fault.RateLimiter.Rate.{
  Request, serve, granted, config_of, full_at, bucket_answers, serve-bucket, granted_bound,
}

program : Unit {0}
unfolding wrap64 sub_time validate_rate_limit create_limiter refill allow allow_n wait execute
    top_up
program = tt

-- Two tokens for each ten nanoseconds, and one more at the start.
abbrev limits : Limits
limits = record { rate = 2; window = 10; burst = 1 }

abbrev fresh : RateLimiter
fresh = record {
  config = config_of limits false;
  tokens = pos 3;
  last_refill = pos 100;
  correlation_id = "";
  service = "";
}

limits-IsSane : IsSane limits
limits-IsSane = omega arith

abbrev burst : List Request
burst =
    record { count = 2; at = 101 }
    ∷ record { count = 2; at = 105 }
    ∷ record { count = 3; at = 112 }
    ∷ []

fresh_created : create_limiter (pos 100) (config_of limits false) ≡ created fresh
unfolding program
fresh_created = refl

burst_answers : serve burst fresh ≡ true ∷ false ∷ true ∷ []
unfolding program
burst_answers = refl

serve-bucket_example : serve burst fresh ≡ bucket_answers limits burst (full_at 100 limits)
serve-bucket_example =
    serve-bucket limits limits-IsSane 100 120 false burst fresh_created (omega arith) (omega arith)

granted_bound_example : granted burst (serve burst fresh) ≤ 3 + (120 - 100) / 10 * 2
granted_bound_example =
    granted_bound limits limits-IsSane 100 120 false burst fresh_created (omega arith) (omega arith)

waits_for_refill :
    (wait {E = ℕ}
      ((pos 101, none) ∷ (pos 105, none) ∷ (pos 112, none) ∷ [])
      (record fresh { tokens = pos 0 })).1
    ≡ acquired
unfolding program
waits_for_refill = refl
