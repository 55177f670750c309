-- ===== src/Fault/Breaker/Invariant.antt =====
-- What holds of a circuit breaker between two methods.
use microservices_base.Prelude.{◌≡◌, none, arith}
use microservices_base.Prelude.Int.{ℤ, pos, ◌+ℤ◌, ◌≤ℤ◌, ◌<ℤ◌}
use microservices_base.Prelude.Word.{InInt64, wrap64, wrap64_of_InInt64}
use microservices_base.Fault.Policy.{CircuitBreakerConfig, validate_breaker}
use microservices_base.Fault.Breaker.{
  Breaker, closed, open_state, half_open, created, create, can_execute, record_failure,
  record_success, reset,
}

-- A configuration of 64-bit words that `Validate` passes.
pub record IsUsable (c : CircuitBreakerConfig) : Type 0 where
  pub accepted : validate_breaker c ≡ none
  pub failure_word : InInt64 c.failure_threshold
  pub success_word : InInt64 c.success_threshold

pub record Inv (cb : Breaker) : Type 0 where
  pub usable : IsUsable cb.config
  pub below_failures :
      cb.state ≡ closed → (pos 0 ≤ℤ cb.failures) × (cb.failures <ℤ cb.config.failure_threshold)
  pub below_successes :
      cb.state ≡ half_open → (pos 0 ≤ℤ cb.successes) × (cb.successes <ℤ cb.config.success_threshold)
  pub closed_reset : cb.state ≡ closed → cb.successes ≡ pos 0
  pub open_reset : cb.state ≡ open_state → cb.successes ≡ pos 0

pub thresholds_positive :
    (c : CircuitBreakerConfig)
    → validate_breaker c ≡ none
    → (pos 0 <ℤ c.failure_threshold) × (pos 0 <ℤ c.success_threshold) × (pos 0 <ℤ c.timeout)
unfolding validate_breaker
thresholds_positive c h = ground arith

-- A counter below a threshold is incremented without wrapping around.
pub increment : (a b : ℤ) → InInt64 b → pos 0 ≤ℤ a → a <ℤ b → wrap64 (a +ℤ pos 1) ≡ a +ℤ pos 1
increment a b h p q = wrap64_of_InInt64 (a +ℤ pos 1) (ground arith, ground arith)

pub create-Inv :
    (c : CircuitBreakerConfig) {cb : Breaker} → IsUsable c → create c ≡ created cb → Inv cb
unfolding create
create-Inv c u h = ground (arith, thresholds_positive c)

pub can_execute-Inv : (now : ℤ) (cb : Breaker) → Inv cb → Inv (can_execute now cb).0
unfolding can_execute
can_execute-Inv now cb h = ground (arith, thresholds_positive cb.config)

pub record_failure-Inv : (now : ℤ) (cb : Breaker) → Inv cb → Inv (record_failure now cb)
unfolding record_failure
record_failure-Inv now cb h =
    ground (arith, thresholds_positive cb.config, increment cb.failures cb.config.failure_threshold)

pub record_success-Inv : (cb : Breaker) → Inv cb → Inv (record_success cb)
unfolding record_success
record_success-Inv cb h =
    ground
      (arith, thresholds_positive cb.config, increment cb.successes cb.config.success_threshold)

pub reset-Inv : (cb : Breaker) → Inv cb → Inv (reset cb)
unfolding reset
reset-Inv cb h = ground (arith, thresholds_positive cb.config)
