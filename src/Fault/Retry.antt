-- ===== src/Fault/Retry.antt =====
-- libs/go/src/fault/retry.go: the loop of Retry. What a run meets is its `Environment`, by the
-- number of the attempt: whether the context is done before it, what the operation returns, the
-- floating-point products and the random numbers that the delay after it is made of, and whether the
-- context is done before that delay has passed.
mod Trace
mod Agree
mod Tests
use microservices_base.Prelude.{
  ℕ, zero, suc, ◌+◌, ◌-◌, ◌%◌, Bool, true, false, not, ◌&&◌, Option, none, some, List, [], ◌∷◌,
  ◌++◌, ltb, if◌then◌else◌,
}
use microservices_base.Prelude.Int.{ℤ, pos, negsuc, quot_ℕ, pos_part, leb_ℤ, ltb_ℤ}
use microservices_base.Prelude.Word.{add64}
use microservices_base.Fault.Policy.{InvalidPolicy}

pub data JitterStrategy : Type 0 where
  no_jitter full_jitter equal_jitter decorrelated_jitter : JitterStrategy
  other_jitter : ℤ → JitterStrategy

-- `at_least_one` is whether the multiplier is not below 1.0; `retry_if` is `none` for nil.
pub record RetryConfig {ℓ} (E : Type ℓ) : Type ℓ where
  pub max_attempts : ℤ
  pub initial_interval : ℤ
  pub max_interval : ℤ
  pub at_least_one : Bool
  pub jitter_strategy : JitterStrategy
  pub retry_if : Option (E → Bool)

module _ {ℓ} {E : Type ℓ} where
  -- `Validate`, without the value of the multiplier.
  unfoldable pub validate_retry : RetryConfig E → Option InvalidPolicy
  validate_retry c =
      if leb_ℤ c.max_attempts (pos 0)
      then some (record { field = "MaxAttempts"; value = c.max_attempts })
      else if leb_ℤ c.initial_interval (pos 0)
      then some (record { field = "InitialInterval"; value = c.initial_interval })
      else if ltb_ℤ c.max_interval c.initial_interval
      then some (record { field = "MaxInterval"; value = c.max_interval })
      else if not c.at_least_one
      then some (record { field = "Multiplier"; value = pos 0 })
      else none

-- `result` is the error of an attempt, `none` if it has none; `product` is InitialInterval times the
-- power of the multiplier as a duration, `random` what rand.Int63n takes its remainder of, and
-- `stretched` the delay times a random number from 1 to 2.
pub record Environment {ℓ} (E : Type ℓ) : Type ℓ where
  pub done_before : ℕ → Bool
  pub result : ℕ → Option E
  pub product : ℕ → ℤ
  pub random : ℕ → ℕ
  pub stretched : ℕ → ℤ
  pub done_after : ℕ → ℤ → Bool

pub data Outcome {ℓ} (E : Type ℓ) : Type ℓ where
  refused : InvalidPolicy → Outcome E
  succeeded : Outcome E
  cancelled : Outcome E
  stopped : E → Outcome E
  exhausted : List E → Outcome E
  panicked : Outcome E

-- `rand.Int63n(n)`, which panics where n is not positive.
unfoldable pub int63n : ℕ → ℤ → Option ℤ
int63n random (pos zero) = none
int63n random (pos (suc n)) = some (pos (random % suc n))
int63n random (negsuc n) = none

unfoldable pub apply_jitter : ℕ → ℤ → ℤ → JitterStrategy → Option ℤ
unfolding int63n
apply_jitter random stretched delay no_jitter = some delay
apply_jitter random stretched delay full_jitter = int63n random delay
apply_jitter random stretched delay equal_jitter =
    let half = quot_ℕ delay 2 in
    elim (int63n random half) [ none ↦ none | some r ↦ some (add64 half r) ]
apply_jitter random stretched delay decorrelated_jitter = some stretched
apply_jitter random stretched delay (other_jitter n) = some delay

module _ {ℓ} {E : Type ℓ} where
  -- Whether an error is retried; a call of nil panics.
  unfoldable pub judge : Option (E → Bool) → E → Option Bool
  judge none e = none
  judge (some retry_if) e = some (retry_if e)

  abbrev pub capped : Environment E → RetryConfig E → ℕ → ℤ
  capped env c attempt =
      if ltb_ℤ c.max_interval (env.product attempt) then c.max_interval else env.product attempt

  -- A delay, or `none` where drawing it panics.
  unfoldable pub calculate_delay : Environment E → RetryConfig E → ℕ → Option ℤ
  calculate_delay env c attempt =
      apply_jitter (env.random attempt) (env.stretched attempt) (capped env c attempt)
        c.jitter_strategy

  -- The loop, with the number of attempts left, that of the next one and the errors so far.
  pub retry_loop : Environment E → RetryConfig E → ℕ → ℕ → List E → Outcome E
  retry_loop env c zero attempt errors = exhausted errors
  retry_loop env c (suc left) attempt errors =
      if env.done_before attempt then cancelled else elim (env.result attempt) [
        | none ↦ succeeded
        | some e ↦
            let rest = retry_loop env c left (suc attempt) (errors ++ e ∷ []) in
            elim (judge c.retry_if e) [
              | none ↦ panicked
              | some again ↦
                  if not again
                  then stopped e
                  else if ltb attempt (pos_part c.max_attempts - 1)
                  then elim (calculate_delay env c attempt) [
                    | none ↦ panicked
                    | some delay ↦ if env.done_after attempt delay then cancelled else rest
                  ]
                  else rest
            ]
      ]

  unfoldable pub retry : Environment E → RetryConfig E → Outcome E
  unfolding retry_loop
  retry env c = elim (validate_retry c) [
    | some invalid ↦ refused invalid
    | none ↦ retry_loop env c (pos_part c.max_attempts) 0 []
  ]

-- What `RetryWithResult` returns: a value, or how it failed.
pub data Returned {ℓ κ} (V : Type κ) (E : Type ℓ) : Type (ℓ ⊔ κ) where
  ok_value : V → Returned V E
  error : Outcome E → Returned V E

module _ {ℓ κ} {E : Type ℓ} {V : Type κ} where
  -- The loop of `RetryWithResult`, with the value of each attempt.
  pub with_result_loop : Environment E → (ℕ → V) → RetryConfig E → ℕ → ℕ → List E → Returned V E
  with_result_loop env value c zero attempt errors = error (exhausted errors)
  with_result_loop env value c (suc left) attempt errors =
      if env.done_before attempt then error cancelled else elim (env.result attempt) [
        | none ↦ ok_value (value attempt)
        | some e ↦
            let rest = with_result_loop env value c left (suc attempt) (errors ++ e ∷ []) in
            elim (judge c.retry_if e) [
              | none ↦ error panicked
              | some again ↦
                  if not again
                  then error (stopped e)
                  else if ltb attempt (pos_part c.max_attempts - 1)
                  then elim (calculate_delay env c attempt) [
                    | none ↦ error panicked
                    | some delay ↦ if env.done_after attempt delay then error cancelled else rest
                  ]
                  else rest
            ]
      ]

  unfoldable pub retry_with_result : Environment E → (ℕ → V) → RetryConfig E → Returned V E
  unfolding with_result_loop
  retry_with_result env value c = elim (validate_retry c) [
    | some invalid ↦ error (refused invalid)
    | none ↦ with_result_loop env value c (pos_part c.max_attempts) 0 []
  ]
