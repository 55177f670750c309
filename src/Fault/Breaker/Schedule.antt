-- ===== src/Fault/Breaker/Schedule.antt =====
-- Any interleaving of the atomic methods of a circuit breaker, from its creation on.
use microservices_base.Prelude.{
  ◌≡◌, refl, String, Bool, true, false, List, [], ◌∷◌, arith, Bool-cases, inl, inr,
}
use microservices_base.Prelude.Int.{ℤ, pos, ltb_ℤ, leb_ℤ}
use microservices_base.Prelude.Word.{sub_time, add64}
use microservices_base.Fault.Policy.{CircuitBreakerConfig}
use microservices_base.Fault.Breaker.{
  Breaker, State, closed, open_state, half_open, state_name, create, created, can_execute,
  record_result, set_correlation_id, reset, new_breaker, admit, transition_to, count_failure,
  count_success,
}
use microservices_base.Fault.Breaker.Invariant.{
  IsUsable, Inv, create-Inv, can_execute-Inv, record_failure-Inv, record_success-Inv, reset-Inv,
}

-- One method call, with the reading of the clock in it.
pub data Call : Type 0 where
  ask : ℤ → Call
  record_end : ℤ → Bool → Call
  name_it : String → Call
  reset_it : Call

abbrev pub apply : Call → Breaker → Breaker
apply (ask now) cb = (can_execute now cb).0
apply (record_end now failed) cb = record_result now failed cb
apply (name_it id) cb = set_correlation_id id cb
apply reset_it cb = reset cb

abbrev pub run : List Call → Breaker → Breaker
run [] cb = cb
run (c ∷ cs) cb = run cs (apply c cb)

record_result-Inv :
    (now : ℤ) (failed : Bool) (cb : Breaker) → Inv cb → Inv (record_result now failed cb)
unfolding record_result
record_result-Inv now true cb h = record_failure-Inv now cb h
record_result-Inv now false cb h = record_success-Inv cb h

apply-Inv : (c : Call) (cb : Breaker) → Inv cb → Inv (apply c cb)
unfolding set_correlation_id
apply-Inv (ask now) cb h = can_execute-Inv now cb h
apply-Inv (record_end now failed) cb h = record_result-Inv now failed cb h
apply-Inv (name_it id) cb h = ground arith
apply-Inv reset_it cb h = reset-Inv cb h

pub run-Inv_from : (cs : List Call) (cb : Breaker) → Inv cb → Inv (run cs cb)
run-Inv_from [] cb h = h
run-Inv_from (c ∷ cs) cb h = run-Inv_from cs (apply c cb) (apply-Inv c cb h)

-- A breaker created from a usable configuration keeps the invariant through every sequence of
-- method calls: while closed its failures, and while half-open its successes, are at least 0 and
-- below the threshold, and outside half-open there are no successes.
pub run-Inv :
    (c : CircuitBreakerConfig) (cs : List Call) {cb : Breaker}
    → IsUsable c
    → create c ≡ created cb
    → Inv (run cs cb)
run-Inv c cs {cb} u h = run-Inv_from cs cb (create-Inv c u h)

-- The edges of the state diagram that the automatic transitions follow.
infix 40 ◌⟶◌
pub data ◌⟶◌ : State → State → Type 0 where
  trip : closed ⟶ open_state
  probe : open_state ⟶ half_open
  relapse : half_open ⟶ open_state
  recover : half_open ⟶ closed

-- A log, latest entry first, of a walk from `closed` to the state.
pub data Walk : State → List (String × String) → Type 0 where
  start : Walk closed []
  move :
      {s t : State} {log : List (String × String)}
      → s ⟶ t
      → Walk s log
      → Walk t ((state_name s, state_name t) ∷ log)

abbrev pub no_reset : List Call → Bool
no_reset [] = true
no_reset (reset_it ∷ cs) = false
no_reset (ask now ∷ cs) = no_reset cs
no_reset (record_end now failed ∷ cs) = no_reset cs
no_reset (name_it id ∷ cs) = no_reset cs

record IsReported (cb : Breaker) : Type 0 where
  listening : cb.config.on_state_change ≡ true
  walk : Walk cb.state cb.started

-- A transition along an edge of the diagram extends the log by that edge.
transition_to-IsReported :
    (t : State) (cb : Breaker) → cb.state ⟶ t → IsReported cb → IsReported (transition_to t cb)
unfolding transition_to
transition_to-IsReported t cb e h =
    simp h.listening (record { listening = h.listening; walk = move e h.walk })

admit-IsReported :
    (s : State) (now : ℤ) (cb : Breaker)
    → cb.state ≡ s
    → IsReported cb
    → IsReported (admit s now cb).0
unfolding admit
admit-IsReported closed now cb e h = h
admit-IsReported open_state now cb e h =
    elim (Bool-cases (ltb_ℤ cb.config.timeout (sub_time now cb.last_failure))) [
      | inl due ↦ rw due (transition_to-IsReported half_open cb (rw e probe) h)
      | inr early ↦ rw early h
    ]
admit-IsReported half_open now cb e h = h

count_failure-IsReported :
    (s : State) (cb : Breaker) → cb.state ≡ s → IsReported cb → IsReported (count_failure s cb)
unfolding count_failure
count_failure-IsReported closed cb e h =
    elim (Bool-cases (leb_ℤ cb.config.failure_threshold cb.failures)) [
      | inl due ↦ rw due (transition_to-IsReported open_state cb (rw e trip) h)
      | inr early ↦ rw early h
    ]
count_failure-IsReported open_state cb e h = h
count_failure-IsReported half_open cb e h = transition_to-IsReported open_state cb (rw e relapse) h

count_success-IsReported :
    (s : State) (cb : Breaker) → cb.state ≡ s → IsReported cb → IsReported (count_success s cb)
unfolding count_success
count_success-IsReported closed cb e h = record { listening = h.listening; walk = h.walk }
count_success-IsReported open_state cb e h = h
count_success-IsReported half_open cb e h =
    let counted = record cb { successes = add64 cb.successes (pos 1) } in
    let kept : IsReported counted = record { listening = h.listening; walk = h.walk } in
    elim (Bool-cases (leb_ℤ cb.config.success_threshold counted.successes)) [
      | inl due ↦ rw due (transition_to-IsReported closed counted (rw e recover) kept)
      | inr early ↦ rw early kept
    ]

record_result-IsReported :
    (now : ℤ) (failed : Bool) (cb : Breaker)
    → IsReported cb
    → IsReported (record_result now failed cb)
unfolding record_result
record_result-IsReported now true cb h =
    count_failure-IsReported cb.state
      (record cb { failures = add64 cb.failures (pos 1); last_failure = now; successes = pos 0 })
      refl (record { listening = h.listening; walk = h.walk })
record_result-IsReported now false cb h = count_success-IsReported cb.state cb refl h

run-IsReported :
    (cs : List Call) (cb : Breaker) → no_reset cs ≡ true → IsReported cb → IsReported (run cs cb)
unfolding can_execute set_correlation_id
run-IsReported [] cb n h = h
run-IsReported (ask now ∷ cs) cb n h =
    run-IsReported cs (can_execute now cb).0 n (admit-IsReported cb.state now cb refl h)
run-IsReported (record_end now failed ∷ cs) cb n h =
    run-IsReported cs (record_result now failed cb) n (record_result-IsReported now failed cb h)
run-IsReported (name_it id ∷ cs) cb n h =
    run-IsReported cs (set_correlation_id id cb) n
      (record { listening = h.listening; walk = h.walk })
run-IsReported (reset_it ∷ cs) cb n h = cc

-- Without a `Reset`, the calls of a listener that the breaker starts from its creation on, each in a
-- goroutine of its own, are for the state changes along a walk on the edges of the state diagram
-- from closed to the present state, in the order in which they are started: no change is skipped and
-- for none two calls are started. The order in which the goroutines run is left open.
pub started-Walk :
    (c : CircuitBreakerConfig) (cs : List Call)
    → c.on_state_change ≡ true
    → no_reset cs ≡ true
    → Walk (run cs (new_breaker c)).state (run cs (new_breaker c)).started
unfolding new_breaker
started-Walk c cs l n =
    (run-IsReported cs (new_breaker c) n (record { listening = l; walk = start })).walk
