-- ===== src/Fault/Retry/Agree.antt =====
-- Retry and RetryWithResult.
use microservices_base.Prelude.{
  ℕ, zero, suc, ◌≡◌, refl, List, [], ◌∷◌, ◌++◌, arith, Bool-cases, Option-cases, inl, inr,
}
use microservices_base.Prelude.Int.{pos_part}
use microservices_base.Fault.Retry.{
  RetryConfig, Environment, Outcome, succeeded, Returned, ok_value, error, retry_loop, retry,
  validate_retry, judge, calculate_delay, with_result_loop, retry_with_result,
}

module _ {ℓ κ} {E : Type ℓ} {V : Type κ} where
  -- How a run ended, without its value.
  abbrev pub ending_of : Returned V E → Outcome E
  ending_of (ok_value v) = succeeded
  ending_of (error o) = o

  loops-eq :
      (env : Environment E) (value : ℕ → V) (c : RetryConfig E) (left i : ℕ) (errors : List E)
      → ending_of (with_result_loop env value c left i errors) ≡ retry_loop env c left i errors
  unfolding with_result_loop retry_loop
  loops-eq env value c zero i errors = refl
  loops-eq env value c (suc left) i errors = elim (Bool-cases (env.done_before i)) [
    | inl done ↦ rw done refl
    | inr made ↦ elim (Option-cases (env.result i)) [
      | inl good ↦ rw (made, good) refl
      | inr (e, bad) ↦
          let ih = loops-eq env value c left (suc i) (errors ++ e ∷ []) in
          elim (Option-cases (judge c.retry_if e)) [
            | inl nil ↦ rw (made, bad, nil) refl
            | inr (again, judged) ↦ elim (Option-cases (calculate_delay env c i)) [
              | inl empty ↦ rw (made, bad, judged, empty) (ground (arith, ih))
              | inr (delay, drawn) ↦ rw (made, bad, judged, drawn) (ground (arith, ih))
            ]
          ]
    ]
  ]

  -- RetryWithResult ends as Retry does on the same configuration and in the same environment, and
  -- where Retry succeeds it has a value.
  pub retry_with_result-eq :
      (env : Environment E) (value : ℕ → V) (c : RetryConfig E)
      → ending_of (retry_with_result env value c) ≡ retry env c
  unfolding retry_with_result retry
  retry_with_result-eq env value c = elim (Option-cases (validate_retry c)) [
    | inl valid ↦
        rw (retry_with_result, retry, valid) (loops-eq env value c (pos_part c.max_attempts) 0 [])
    | inr (e, invalid) ↦ rw (retry_with_result, retry, invalid) refl
  ]
