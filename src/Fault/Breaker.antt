-- ===== src/Fault/Breaker.antt =====
-- libs/go/src/fault/circuitbreaker.go. Each method runs under the mutex, so a method is one atomic
-- step; `now` is what `time.Now` returned in it. Each transition starts a
-- goroutine that calls `OnStateChange`; `started` records the starts, which are made under the mutex,
-- latest first. When and in which order the goroutines run is not modelled.
mod Invariant
mod Schedule
mod Trips
mod Tests
use microservices_base.Prelude.{
  String, Bool, true, false, Option, none, some, List, [], ◌∷◌, if◌then◌else◌,
}
use microservices_base.Prelude.Int.{ℤ, pos, leb_ℤ, ltb_ℤ}
use microservices_base.Prelude.Word.{add64, sub64, sub_time}
use microservices_base.Fault.Policy.{CircuitBreakerConfig, InvalidPolicy, validate_breaker}

pub data State : Type 0 where
  closed open_state half_open : State

-- `State.String`.
abbrev pub state_name : State → String
state_name closed = "closed"
state_name open_state = "open"
state_name half_open = "half-open"

pub record Breaker : Type 0 where
  pub config : CircuitBreakerConfig
  pub state : State
  pub failures : ℤ
  pub successes : ℤ
  pub last_failure : ℤ
  pub correlation_id : String
  pub started : List (String × String)

-- `NewCircuitOpenError`; the utilisation is the quotient of the last two fields.
pub record CircuitOpenError : Type 0 where
  pub service : String
  pub correlation_id : String
  pub opened_at : ℤ
  pub reset_after : ℤ
  pub failures : ℤ
  pub threshold : ℤ

unfoldable pub new_breaker : CircuitBreakerConfig → Breaker
new_breaker c = record {
  config = c;
  state = closed;
  failures = pos 0;
  successes = pos 0;
  last_failure = pos 0;
  correlation_id = "";
  started = [];
}

-- `NewCircuitBreaker`.
pub data Created : Type 0 where
  created : Breaker → Created
  refused : InvalidPolicy → Created

unfoldable pub create : CircuitBreakerConfig → Created
unfolding new_breaker
create c = elim (validate_breaker c) [ none ↦ created (new_breaker c) | some e ↦ refused e ]

abbrev is_closed : State → Bool
is_closed closed = true
is_closed _ = false

unfoldable pub transition_to : State → Breaker → Breaker
transition_to new cb =
    let moved = record cb {
      state = new;
      failures = if is_closed new then pos 0 else cb.failures;
      successes = if is_closed new then pos 0 else cb.successes;
    } in
    if cb.config.on_state_change
    then record moved { started = (state_name cb.state, state_name new) ∷ cb.started }
    else moved

open_error : ℤ → Breaker → CircuitOpenError
open_error now cb = record {
  service = cb.config.name;
  correlation_id = cb.correlation_id;
  opened_at = cb.last_failure;
  reset_after = sub64 cb.config.timeout (sub_time now cb.last_failure);
  failures = cb.failures;
  threshold = cb.config.failure_threshold;
}

admit : State → ℤ → Breaker → Breaker × Option CircuitOpenError
unfolding transition_to open_error
admit closed now cb = (cb, none)
admit open_state now cb =
    if ltb_ℤ cb.config.timeout (sub_time now cb.last_failure)
    then (transition_to half_open cb, none)
    else (cb, some (open_error now cb))
admit half_open now cb = (cb, none)

unfoldable pub can_execute : ℤ → Breaker → Breaker × Option CircuitOpenError
unfolding admit
can_execute now cb = admit cb.state now cb

count_failure : State → Breaker → Breaker
unfolding transition_to
count_failure closed cb =
    if leb_ℤ cb.config.failure_threshold cb.failures then transition_to open_state cb else cb
count_failure open_state cb = cb
count_failure half_open cb = transition_to open_state cb

unfoldable pub record_failure : ℤ → Breaker → Breaker
unfolding count_failure
record_failure now cb =
    count_failure cb.state
      (record cb { failures = add64 cb.failures (pos 1); last_failure = now; successes = pos 0 })

count_success : State → Breaker → Breaker
unfolding transition_to
count_success closed cb = record cb { failures = pos 0 }
count_success open_state cb = cb
count_success half_open cb =
    let counted = record cb { successes = add64 cb.successes (pos 1) } in
    if leb_ℤ cb.config.success_threshold counted.successes
    then transition_to closed counted
    else counted

unfoldable pub record_success : Breaker → Breaker
unfolding count_success
record_success cb = count_success cb.state cb

-- `recordResult`: whether the operation returned an error.
unfoldable pub record_result : ℤ → Bool → Breaker → Breaker
unfolding record_failure record_success
record_result now failed cb = if failed then record_failure now cb else record_success cb

unfoldable pub set_correlation_id : String → Breaker → Breaker
set_correlation_id id cb = record cb { correlation_id = id }

unfoldable pub reset : Breaker → Breaker
reset cb = record cb { state = closed; failures = pos 0; successes = pos 0 }

pub data Outcome {ℓ} (E : Type ℓ) : Type ℓ where
  rejected : CircuitOpenError → Outcome E
  failed : E → Outcome E
  succeeded : Outcome E

-- `Execute`: admitted at `start`, and the operation's error, if any, is recorded at `end`.
unfoldable pub execute {ℓ} : {E : Type ℓ} → ℤ → ℤ → Option E → Breaker → Breaker × Outcome E
unfolding can_execute record_result
execute start end op cb =
    let (admitted, refusal) = can_execute start cb in
    elim refusal [
      | some e ↦ (admitted, rejected e)
      | none ↦ elim op [
        | some e ↦ (record_result end true admitted, failed e)
        | none ↦ (record_result end false admitted, succeeded)
      ]
    ]
