-- ===== src/Fault/Breaker/Tests.antt =====
-- The circuit breaker at concrete inputs.
use microservices_base.Prelude.{
  ◌≡◌, refl, true, false, List, [], ◌∷◌, arith, if◌then◌else◌, ltb, ◌+◌, replicate, is_none,
}
use microservices_base.Prelude.Int.{pos, pos_part}
use microservices_base.Prelude.Word.{sub_time, wrap64}
use microservices_base.Fault.Policy.{CircuitBreakerConfig, validate_breaker}
use microservices_base.Fault.Breaker.{
  Breaker, closed, open_state, half_open, new_breaker, create, can_execute, record_failure,
  record_success, record_result, reset, execute,
}
use microservices_base.Fault.Breaker.Invariant.{IsUsable, Inv}
use microservices_base.Fault.Breaker.Schedule.{
  Call, ask, record_end, run, run-Inv, Walk, started-Walk,
}
use microservices_base.Fault.Breaker.Trips.{failing, asking, failing_opens, failure_blackout}

program : Unit {0}
unfolding wrap64 validate_breaker create can_execute record_failure record_success record_result
    reset sub_time execute
program = tt

abbrev policy : CircuitBreakerConfig
policy = record {
  name = "db";
  failure_threshold = pos 2;
  success_threshold = pos 2;
  timeout = pos 30;
  half_open_requests = pos 1;
  on_state_change = true;
}

abbrev fresh : Breaker
fresh = new_breaker policy

policy-IsUsable : IsUsable policy
unfolding program
policy-IsUsable = record { accepted = refl; failure_word = omega arith; success_word = omega arith }

abbrev outage : List Call
outage =
    ask (pos 5)
    ∷ record_end (pos 6) true
    ∷ ask (pos 7)
    ∷ record_end (pos 8) true
    ∷ ask (pos 20)
    ∷ ask (pos 40)
    ∷ record_end (pos 41) false
    ∷ []

outage_probes : (run outage fresh).state ≡ half_open
unfolding program new_breaker
outage_probes = refl

run-Inv_example : Inv (run outage fresh)
run-Inv_example = run-Inv policy outage policy-IsUsable (unfold program new_breaker in refl)

started-Walk_example : Walk (run outage fresh).state (run outage fresh).started
started-Walk_example = started-Walk policy outage refl refl

failing_opens_example :
    (failing (pos 6 ∷ pos 8 ∷ []) fresh).state
    ≡ (if ltb (pos_part fresh.failures + 2) 2 then closed else open_state)
unfolding new_breaker
failing_opens_example =
    failing_opens (pos 6 ∷ pos 8 ∷ []) fresh
      (run-Inv policy [] policy-IsUsable (unfold program in refl)) refl

-- The breaker after the outage, probing.
abbrev probing : Breaker
probing = run outage fresh

failure_blackout_example :
    (asking (pos 60 ∷ []) (record_failure (pos 50) probing)
      ≡ (record_failure (pos 50) probing, replicate 1 false))
    × ((can_execute (pos 90) (record_failure (pos 50) probing)).0.state ≡ half_open)
    × (is_none (can_execute (pos 90) (record_failure (pos 50) probing)).1 ≡ true)
unfolding program new_breaker
failure_blackout_example =
    failure_blackout (pos 50) (pos 90) (pos 60 ∷ []) probing refl (omega arith, tt) (omega arith)
