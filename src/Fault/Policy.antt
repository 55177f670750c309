-- ===== src/Fault/Policy.antt =====
-- libs/go/src/fault/config.go: the configurations and their `Validate` methods. `int` and
-- `time.Duration` are integers; the name of the offending field stands for the error's text.
use microservices_base.Prelude.{String, Bool, Option, none, some, if◌then◌else◌}
use microservices_base.Prelude.Int.{ℤ, pos, leb_ℤ, ltb_ℤ}

-- `NewInvalidPolicyError(field, value, …)`.
pub record InvalidPolicy : Type 0 where
  pub field : String
  pub value : ℤ

pub record CircuitBreakerConfig : Type 0 where
  pub name : String
  pub failure_threshold : ℤ
  pub success_threshold : ℤ
  pub timeout : ℤ
  pub half_open_requests : ℤ
  pub on_state_change : Bool  -- whether the callback is set

pub record RateLimitConfig : Type 0 where
  pub rate : ℤ
  pub window : ℤ
  pub burst_size : ℤ
  pub wait_on_limit : Bool

pub record BulkheadConfig : Type 0 where
  pub max_concurrent : ℤ
  pub max_wait : ℤ
  pub queue_size : ℤ

abbrev invalid : String → ℤ → Option InvalidPolicy
invalid field value = some (record { field = field; value = value })

unfoldable pub validate_breaker : CircuitBreakerConfig → Option InvalidPolicy
validate_breaker c =
    if leb_ℤ c.failure_threshold (pos 0)
    then invalid "FailureThreshold" c.failure_threshold
    else if leb_ℤ c.success_threshold (pos 0)
    then invalid "SuccessThreshold" c.success_threshold
    else if leb_ℤ c.timeout (pos 0)
    then invalid "Timeout" c.timeout
    else if leb_ℤ c.half_open_requests (pos 0)
    then invalid "HalfOpenRequests" c.half_open_requests
    else none

unfoldable pub validate_rate_limit : RateLimitConfig → Option InvalidPolicy
validate_rate_limit c =
    if leb_ℤ c.rate (pos 0)
    then invalid "Rate" c.rate
    else if leb_ℤ c.window (pos 0)
    then invalid "Window" c.window
    else if ltb_ℤ c.burst_size (pos 0)
    then invalid "BurstSize" c.burst_size
    else none

unfoldable pub validate_bulkhead : BulkheadConfig → Option InvalidPolicy
validate_bulkhead c =
    if leb_ℤ c.max_concurrent (pos 0)
    then invalid "MaxConcurrent" c.max_concurrent
    else if ltb_ℤ c.max_wait (pos 0)
    then invalid "MaxWait" c.max_wait
    else if ltb_ℤ c.queue_size (pos 0)
    then invalid "QueueSize" c.queue_size
    else none
