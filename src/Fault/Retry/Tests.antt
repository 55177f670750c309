-- ===== src/Fault/Retry/Tests.antt =====
-- Runs of Retry on concrete inputs.
use microservices_base.Prelude.{
  String, ℕ, ◌≡◌, refl, true, false, not, some, [], ◌∷◌, ◌==◌ as nat_beq, leb,
}
use microservices_base.Prelude.Int.{pos}
use microservices_base.Fault.Retry.{
  full_jitter, judge, calculate_delay, apply_jitter, int63n, RetryConfig, Environment, cancelled,
  exhausted, retry, validate_retry,
}
use microservices_base.Fault.Retry.Trace.{Trace, retry-Trace}

abbrev config : RetryConfig ℕ
config = record {
  max_attempts = pos 3;
  initial_interval = pos 100;
  max_interval = pos 1000;
  at_least_one = true;
  jitter_strategy = full_jitter;
  retry_if = some (λ e. not (nat_beq e 9));
}

-- Attempt i fails with error i.
abbrev failing : Environment ℕ
failing = record {
  done_before = λ i. false;
  result = λ i. some i;
  product = λ i. pos 100;
  random = λ i. 7;
  stretched = λ i. pos 150;
  done_after = λ i delay. false;
}

three_errors : retry failing config ≡ exhausted (0 ∷ 1 ∷ 2 ∷ [])
unfolding retry validate_retry judge calculate_delay apply_jitter int63n
three_errors = refl

-- The context is done during the second delay.
abbrev interrupted : Environment ℕ
interrupted = record failing { done_after = λ i delay. leb 1 i }

cancelled_late : retry interrupted config ≡ cancelled
unfolding retry validate_retry judge calculate_delay apply_jitter int63n
cancelled_late = refl

retry-Trace_example : Trace failing config 0 [] (retry failing config)
unfolding validate_retry
retry-Trace_example = retry-Trace failing config refl

abbrev words : ℕ → String
words i = "v"
