-- ===== src/FileUpload/Breaker/Invariant.antt =====
-- The states of the circuit breaker of file-upload through any interleaving of its methods.
use microservices_base.Prelude.{◌≡◌, List, [], ◌∷◌, arith}
use microservices_base.Prelude.Int.{ℤ, pos, ◌+ℤ◌, ◌≤ℤ◌, ◌<ℤ◌}
use microservices_base.Prelude.Word.{InInt64, wrap64, wrap64_of_InInt64}
use microservices_base.FileUpload.Breaker.{
  Breaker, Config, closed, open_state, half_open, new_breaker, allow, record_success,
  record_failure, reset,
}

-- Settings of 64-bit words that are positive, as all the default ones are.
pub record IsPositive (threshold max_calls : ℤ) : Type 0 where
  pub threshold_positive : pos 0 <ℤ threshold
  pub max_calls_positive : pos 0 <ℤ max_calls
  pub threshold_word : InInt64 threshold
  pub max_calls_word : InInt64 max_calls

pub record Inv (cb : Breaker) : Type 0 where
  pub positive : IsPositive cb.failure_threshold cb.half_open_max_calls
  pub below_threshold :
      cb.state ≡ closed → (pos 0 ≤ℤ cb.failures) × (cb.failures <ℤ cb.failure_threshold)
  pub closed_reset : cb.state ≡ closed → cb.successes ≡ pos 0
  pub open_reset : cb.state ≡ open_state → cb.successes ≡ pos 0
  pub below_max :
      cb.state ≡ half_open → (pos 0 ≤ℤ cb.successes) × (cb.successes <ℤ cb.half_open_max_calls)
  pub probes :
      cb.state ≡ half_open
      → (pos 0 ≤ℤ cb.half_open_calls) × (cb.half_open_calls ≤ℤ cb.half_open_max_calls)

pub increment : (a b : ℤ) → InInt64 b → pos 0 ≤ℤ a → a <ℤ b → wrap64 (a +ℤ pos 1) ≡ a +ℤ pos 1
increment a b h p q = wrap64_of_InInt64 (a +ℤ pos 1) (ground arith, ground arith)

pub new_breaker-Inv :
    (cfg : Config)
    → IsPositive cfg.failure_threshold cfg.half_open_max_calls
    → Inv (new_breaker cfg)
unfolding new_breaker
new_breaker-Inv cfg p = ground arith

allow-Inv : (now : ℤ) (cb : Breaker) → Inv cb → Inv (allow now cb).0
unfolding allow
allow-Inv now cb h = ground (arith, increment cb.half_open_calls cb.half_open_max_calls)

record_success-Inv : (cb : Breaker) → Inv cb → Inv (record_success cb)
unfolding record_success
record_success-Inv cb h = ground (arith, increment cb.successes cb.half_open_max_calls)

record_failure-Inv : (now : ℤ) (cb : Breaker) → Inv cb → Inv (record_failure now cb)
unfolding record_failure
record_failure-Inv now cb h = ground (arith, increment cb.failures cb.failure_threshold)

reset-Inv : (cb : Breaker) → Inv cb → Inv (reset cb)
unfolding reset
reset-Inv cb h = ground arith

-- One method call, with what the clock shows.
pub data Event : Type 0 where
  ask : ℤ → Event
  succeed : Event
  fail : ℤ → Event
  reset_it : Event

abbrev after : Event → Breaker → Breaker
after (ask now) cb = (allow now cb).0
after succeed cb = record_success cb
after (fail now) cb = record_failure now cb
after reset_it cb = reset cb

abbrev pub after_all : List Event → Breaker → Breaker
after_all [] cb = cb
after_all (e ∷ events) cb = after_all events (after e cb)

after-Inv : (e : Event) (cb : Breaker) → Inv cb → Inv (after e cb)
after-Inv (ask now) cb h = allow-Inv now cb h
after-Inv succeed cb h = record_success-Inv cb h
after-Inv (fail now) cb h = record_failure-Inv now cb h
after-Inv reset_it cb h = reset-Inv cb h

pub after_all-Inv : (events : List Event) (cb : Breaker) → Inv cb → Inv (after_all events cb)
after_all-Inv [] cb h = h
after_all-Inv (e ∷ events) cb h = after_all-Inv events (after e cb) (after-Inv e cb h)

-- A new breaker with positive settings keeps its invariant through every interleaving of Allow,
-- RecordSuccess, RecordFailure and Reset, whether or not the calls belong together: while closed
-- its failures are below the threshold; while half-open its successes are below HalfOpenMaxCalls
-- and its counted probes at most that; and outside half-open there are no successes.
pub new_breaker-after_all-Inv :
    (cfg : Config) (events : List Event)
    → IsPositive cfg.failure_threshold cfg.half_open_max_calls
    → Inv (after_all events (new_breaker cfg))
new_breaker-after_all-Inv cfg events p =
    after_all-Inv events (new_breaker cfg) (new_breaker-Inv cfg p)
