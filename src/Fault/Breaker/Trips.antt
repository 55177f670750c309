-- ===== src/Fault/Breaker/Trips.antt =====
-- When a circuit breaker opens, what it rejects, and how it recovers.
use microservices_base.Prelude.{
  ℕ, zero, suc, ◌+◌, ◌<◌, ◌≡◌, refl, Bool, true, false, List, [], ◌∷◌, arith, ltb, length,
  if◌then◌else◌, Bool-cases, inl, inr, ◌∙◌, ap, replicate, is_none,
}
use microservices_base.Prelude.Int.{ℤ, pos, pos_part, ◌≤ℤ◌, ◌<ℤ◌}
use microservices_base.Prelude.Word.{half_word, sub_time, wrap64}
use microservices_base.Fault.Breaker.{
  Breaker, closed, open_state, half_open, can_execute, record_failure, record_success,
}
use microservices_base.Fault.Breaker.Invariant.{Inv}

-- Failures recorded one after the other, at the given times.
abbrev pub failing : List ℤ → Breaker → Breaker
failing [] cb = cb
failing (now ∷ times) cb = failing times (record_failure now cb)

-- `n` successes recorded one after the other.
abbrev succeeding : ℕ → Breaker → Breaker
succeeding zero cb = cb
succeeding (suc n) cb = succeeding n (record_success cb)

inc_pos : (f t : ℕ) → f < t → t < half_word → wrap64 (pos (f + 1)) ≡ pos (f + 1)
unfolding wrap64
inc_pos f t p q = ground arith

record_failure-open :
    (now : ℤ) (cb : Breaker) → cb.state ≡ open_state → (record_failure now cb).state ≡ open_state
unfolding record_failure
record_failure-open now cb h = ground arith

failing-open :
    (times : List ℤ) (cb : Breaker) → cb.state ≡ open_state → (failing times cb).state ≡ open_state
failing-open [] cb h = h
failing-open (now ∷ times) cb h =
    failing-open times (record_failure now cb) (record_failure-open now cb h)

record_failure-closed :
    (now : ℤ) (cb : Breaker) (f t : ℕ)
    → cb.state ≡ closed
    → cb.failures ≡ pos f
    → cb.config.failure_threshold ≡ pos t
    → f < t
    → t < half_word
    → ((record_failure now cb).failures ≡ pos (f + 1))
      × ((record_failure now cb).config.failure_threshold ≡ pos t)
      × ((record_failure now cb).state ≡ (if ltb (f + 1) t then closed else open_state))
unfolding record_failure
record_failure-closed now cb f t s e k p q = ground (arith, inc_pos f t p q)

failing-state :
    (times : List ℤ) (cb : Breaker) (f t : ℕ)
    → cb.state ≡ closed
    → cb.failures ≡ pos f
    → cb.config.failure_threshold ≡ pos t
    → f < t
    → t < half_word
    → (failing times cb).state ≡ (if ltb (f + length times) t then closed else open_state)
failing-state [] cb f t s e k p q = ground arith
failing-state (now ∷ times) cb f t s e k p q =
    let (counted, kept, moved) = record_failure-closed now cb f t s e k p q in
    elim (Bool-cases (ltb (f + 1) t)) [
      | inl below ↦
          failing-state times (record_failure now cb) (f + 1) t (rw below at moved) counted kept
            (ground arith) q
          ∙ ground arith
      | inr reached ↦
          failing-open times (record_failure now cb) (rw reached at moved) ∙ ground arith
    ]

-- A closed breaker that satisfies the invariant is open after a row of failures exactly when
-- these and the failures counted before reach the threshold; otherwise it is still closed.
pub failing_opens :
    (times : List ℤ) (cb : Breaker)
    → Inv cb
    → cb.state ≡ closed
    → (failing times cb).state ≡ (
        if ltb (pos_part cb.failures + length times) (pos_part cb.config.failure_threshold)
        then closed
        else open_state)
failing_opens times cb h s =
    failing-state times cb (pos_part cb.failures) (pos_part cb.config.failure_threshold) s
      (ground (arith, h.below_failures s)) (ground (arith, h.below_failures s))
      (ground (arith, h.below_failures s)) (ground (arith, h.usable.failure_word))

record_success-half :
    (cb : Breaker) (s t : ℕ)
    → cb.state ≡ half_open
    → cb.successes ≡ pos s
    → cb.config.success_threshold ≡ pos t
    → s < t
    → t < half_word
    → ((record_success cb).config.success_threshold ≡ pos t)
      × ((record_success cb).state ≡ (if ltb (s + 1) t then half_open else closed))
      × ((record_success cb).successes ≡ (if ltb (s + 1) t then pos (s + 1) else pos 0))
unfolding record_success
record_success-half cb s t e n k p q = ground (arith, inc_pos s t p q)

succeeding-closed : (n : ℕ) (cb : Breaker) → cb.state ≡ closed → (succeeding n cb).state ≡ closed
unfolding record_success
succeeding-closed zero cb h = h
succeeding-closed (suc n) cb h = succeeding-closed n (record_success cb) (ground arith)

succeeding-state :
    (n : ℕ) (cb : Breaker) (s t : ℕ)
    → cb.state ≡ half_open
    → cb.successes ≡ pos s
    → cb.config.success_threshold ≡ pos t
    → s < t
    → t < half_word
    → (succeeding n cb).state ≡ (if ltb (s + n) t then half_open else closed)
succeeding-state zero cb s t e n k p q = ground arith
succeeding-state (suc m) cb s t e n k p q =
    let (kept, moved, counted) = record_success-half cb s t e n k p q in
    elim (Bool-cases (ltb (s + 1) t)) [
      | inl below ↦
          succeeding-state m (record_success cb) (s + 1) t (rw below at moved) (rw below at counted)
            kept (ground arith) q
          ∙ ground arith
      | inr reached ↦ succeeding-closed m (record_success cb) (rw reached at moved) ∙ ground arith
    ]

-- A half-open breaker that satisfies the invariant is closed after a row of successes exactly
-- when these and the successes counted before reach the threshold; otherwise it is half-open still.
succeeding_closes :
    (n : ℕ) (cb : Breaker)
    → Inv cb
    → cb.state ≡ half_open
    → (succeeding n cb).state ≡ (
        if ltb (pos_part cb.successes + n) (pos_part cb.config.success_threshold)
        then half_open
        else closed)
succeeding_closes n cb h s =
    succeeding-state n cb (pos_part cb.successes) (pos_part cb.config.success_threshold) s
      (ground (arith, h.below_successes s)) (ground (arith, h.below_successes s))
      (ground (arith, h.below_successes s)) (ground (arith, h.usable.success_word))

-- Requests that come one after the other, and whether each was admitted.
abbrev pub asking : List ℤ → Breaker → Breaker × List Bool
asking [] cb = (cb, [])
asking (now ∷ times) cb =
    let (cb', refusal) = can_execute now cb in
    let (cb'', answers) = asking times cb' in (cb'', is_none refusal ∷ answers)

-- Every time lies within the timeout after the failure.
abbrev pub AllEarly : ℤ → ℤ → List ℤ → Type 0
AllEarly timeout failure [] = Unit
AllEarly timeout failure (now ∷ times) =
    (sub_time now failure ≤ℤ timeout) × AllEarly timeout failure times

can_execute-early :
    (now : ℤ) (cb : Breaker)
    → cb.state ≡ open_state
    → sub_time now cb.last_failure ≤ℤ cb.config.timeout
    → ((can_execute now cb).0 ≡ cb) × (is_none (can_execute now cb).1 ≡ false)
unfolding can_execute
can_execute-early now cb s h = ground arith

asking-early :
    (times : List ℤ) (cb : Breaker)
    → cb.state ≡ open_state
    → AllEarly cb.config.timeout cb.last_failure times
    → asking times cb ≡ (cb, replicate (length times) false)
asking-early [] cb s h = refl
asking-early (now ∷ times) cb s h =
    let (kept, refused) = can_execute-early now cb s h.0 in
    rw (kept, asking-early times cb s h.1)
      (ap (λ b. (cb, b ∷ replicate (length times) false)) refused)

can_execute-late :
    (now : ℤ) (cb : Breaker)
    → cb.state ≡ open_state
    → cb.config.timeout <ℤ sub_time now cb.last_failure
    → ((can_execute now cb).0.state ≡ half_open) × (is_none (can_execute now cb).1 ≡ true)
unfolding can_execute
can_execute-late now cb s h = ground arith

record_failure_kept :
    (now : ℤ) (cb : Breaker)
    → ((record_failure now cb).last_failure ≡ now)
      × ((record_failure now cb).config.timeout ≡ cb.config.timeout)
unfolding record_failure
record_failure_kept now cb = ground arith

-- After a failure at `now` that leaves the breaker open, in whatever state it was recorded, every
-- request within the timeout is rejected and leaves the breaker as it is, and a request after the
-- timeout is admitted as a probe.
pub failure_blackout :
    (now later : ℤ) (times : List ℤ) (cb : Breaker)
    → (record_failure now cb).state ≡ open_state
    → AllEarly cb.config.timeout now times
    → cb.config.timeout <ℤ sub_time later now
    → (asking times (record_failure now cb)
        ≡ (record_failure now cb, replicate (length times) false))
      × ((can_execute later (record_failure now cb)).0.state ≡ half_open)
      × (is_none (can_execute later (record_failure now cb)).1 ≡ true)
failure_blackout now later times cb opened early late =
    let (at_now, kept) = record_failure_kept now cb in
    let (probing, admitted) =
      can_execute-late later (record_failure now cb) opened (rw (at_now, kept) late) in
    (asking-early times (record_failure now cb) opened (rw (at_now, kept) early), probing, admitted)
