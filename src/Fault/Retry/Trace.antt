-- ===== src/Fault/Retry/Trace.antt =====
-- Where a run of Retry ends, and why.
use microservices_base.Prelude.{
  ℕ, zero, suc, ◌+◌, ◌-◌, ◌<◌, ◌≤◌, Bool, Option, ◌≡◌, refl, sym, ap, ◌∙◌, inl, inr, true, false,
  none, some, List, [], ◌∷◌, ◌++◌, arith, ltb, Bool-cases, Option-cases, subst,
}
use microservices_base.Prelude.Int.{ℤ, pos, negsuc, pos_part, quot_ℕ, ◌≤ℤ◌}
use microservices_base.Fault.Retry.{
  RetryConfig, Environment, Outcome, succeeded, cancelled, stopped, exhausted, retry_loop, retry,
  validate_retry, panicked, JitterStrategy, no_jitter, full_jitter, equal_jitter,
  decorrelated_jitter, other_jitter, judge, int63n, apply_jitter, calculate_delay, capped,
}

int63n-none : (random : ℕ) (n : ℤ) → int63n random n ≡ none → n ≤ℤ pos 0
unfolding int63n
int63n-none random (pos zero) h = omega arith
int63n-none random (pos (suc n)) h = cc h
int63n-none random (negsuc n) h = omega arith

module _ {ℓ} {E : Type ℓ} (env : Environment E) (c : RetryConfig E) where
  -- The attempt is the last, or the delay after it is drawn and passes.
  pub data Passes (i : ℕ) : Type 0 where
    last_one : pos_part c.max_attempts ≤ suc i → Passes i
    passed :
        (delay : ℤ)
        → calculate_delay env c i ≡ some delay
        → env.done_after i delay ≡ false
        → Passes i

  -- The jitter draws from no number: the full one where the delay is not positive, the equal one where
  -- half the delay is not.
  pub data EmptyDraw (delay : ℤ) : JitterStrategy → Type 0 where
    full_empty : delay ≤ℤ pos 0 → EmptyDraw delay full_jitter
    half_empty : quot_ℕ delay 2 ≤ℤ pos 0 → EmptyDraw delay equal_jitter

  -- The attempt is made, fails with an error that is retried, and the delay after it passes.
  pub record Fails (i : ℕ) (e : E) : Type ℓ where
    pub made : env.done_before i ≡ false
    pub error : env.result i ≡ some e
    pub retried : judge c.retry_if e ≡ some true
    pub delayed : Passes i

  -- The attempts from `i` on fail with these errors.
  pub data FailRow : ℕ → ℕ → List E → Type ℓ where
    no_more : (i : ℕ) → FailRow i i []
    one_more :
        (i j : ℕ) (e : E) (errors : List E)
        → Fails i e
        → FailRow (suc i) j errors
        → FailRow i j (e ∷ errors)

  -- How a run ends at an attempt, with the errors of those before.
  pub data Ends (i : ℕ) (errors : List E) : Outcome E → Type ℓ where
    ends_success :
        i < pos_part c.max_attempts
        → env.done_before i ≡ false
        → env.result i ≡ none
        → Ends i errors succeeded
    ends_before : i < pos_part c.max_attempts → env.done_before i ≡ true → Ends i errors cancelled
    ends_waiting :
        (e : E) (delay : ℤ)
        → i < pos_part c.max_attempts - 1
        → env.done_before i ≡ false
        → env.result i ≡ some e
        → judge c.retry_if e ≡ some true
        → calculate_delay env c i ≡ some delay
        → env.done_after i delay ≡ true
        → Ends i errors cancelled
    ends_drawing :
        (e : E)
        → i < pos_part c.max_attempts - 1
        → env.done_before i ≡ false
        → env.result i ≡ some e
        → judge c.retry_if e ≡ some true
        → EmptyDraw (capped env c i) c.jitter_strategy
        → Ends i errors panicked
    ends_undecided :
        (e : E)
        → i < pos_part c.max_attempts
        → env.done_before i ≡ false
        → env.result i ≡ some e
        → c.retry_if ≡ none
        → Ends i errors panicked
    ends_stopped :
        (e : E)
        → i < pos_part c.max_attempts
        → env.done_before i ≡ false
        → env.result i ≡ some e
        → judge c.retry_if e ≡ some false
        → Ends i errors (stopped e)
    ends_exhausted : i ≡ pos_part c.max_attempts → Ends i errors (exhausted errors)

  pub record Trace (start : ℕ) (before : List E) (o : Outcome E) : Type ℓ where
    pub last : ℕ
    pub errors : List E
    pub row : FailRow start last errors
    pub ending : Ends last (before ++ errors) o

  append-nil : (l : List E) → l ++ [] ≡ l
  append-nil [] = refl
  append-nil (x ∷ l) = ap (◌∷◌ x) (append-nil l)

  append_one : (l : List E) (e : E) (k : List E) → (l ++ e ∷ []) ++ k ≡ l ++ e ∷ k
  append_one [] e k = refl
  append_one (x ∷ l) e k = ap (◌∷◌ x) (append_one l e k)

  at_once : (i : ℕ) (before : List E) (o : Outcome E) → Ends i before o → Trace i before o
  at_once i before o end = record {
    last = i;
    errors = [];
    row = no_more i;
    ending = subst (λ l. Ends i l o) (sym (append-nil before)) end;
  }

  go_on :
      (i : ℕ) (before : List E) (e : E) (o : Outcome E)
      → Fails i e
      → Trace (suc i) (before ++ e ∷ []) o
      → Trace i before o
  go_on i before e o h t = record {
    last = t.last;
    errors = e ∷ t.errors;
    row = one_more i t.last e t.errors h t.row;
    ending = subst (λ l. Ends t.last l o) (append_one before e t.errors) t.ending;
  }

  judge-none : (f : Option (E → Bool)) (e : E) → judge f e ≡ none → f ≡ none
  unfolding judge
  judge-none none e h = refl
  judge-none (some f) e h = cc h

  apply_jitter-none :
      (random : ℕ) (stretched delay : ℤ) (strategy : JitterStrategy)
      → apply_jitter random stretched delay strategy ≡ none
      → EmptyDraw delay strategy
  unfolding apply_jitter int63n
  apply_jitter-none random stretched delay no_jitter h = cc h
  apply_jitter-none random stretched delay full_jitter h = full_empty (int63n-none random delay h)
  apply_jitter-none random stretched delay equal_jitter h =
      elim (Option-cases (int63n random (quot_ℕ delay 2))) [
        | inl empty ↦ half_empty (int63n-none random (quot_ℕ delay 2) empty)
        | inr (r, drawn) ↦ cc (rw (apply_jitter, drawn) at h)
      ]
  apply_jitter-none random stretched delay decorrelated_jitter h = cc h
  apply_jitter-none random stretched delay (other_jitter n) h = cc h

  calculate_delay-none :
      (i : ℕ) → calculate_delay env c i ≡ none → EmptyDraw (capped env c i) c.jitter_strategy
  unfolding calculate_delay
  calculate_delay-none i h =
      apply_jitter-none (env.random i) (env.stretched i) (capped env c i) c.jitter_strategy h

  retry_loop-Trace :
      (left i : ℕ) (before : List E)
      → left + i ≡ pos_part c.max_attempts
      → Trace i before (retry_loop env c left i before)
  unfolding retry_loop
  retry_loop-Trace zero i before h =
      at_once i before (exhausted before) (ends_exhausted (omega arith))
  retry_loop-Trace (suc left) i before h = elim (Bool-cases (env.done_before i)) [
    | inl done ↦ rw done (at_once i before cancelled (ends_before (omega arith) done))
    | inr made ↦ elim (Option-cases (env.result i)) [
      | inl good ↦
          rw (made, good) (at_once i before succeeded (ends_success (omega arith) made good))
      | inr (e, error) ↦ elim (Option-cases (judge c.retry_if e)) [
        | inl nil ↦
            rw (made, error, nil)
              (at_once i before panicked
                (ends_undecided e (omega arith) made error (judge-none c.retry_if e nil)))
        | inr (verdict, judged) ↦ elim (Bool-cases verdict) [
          | inr final ↦
              let refuses : judge c.retry_if e ≡ some false = judged ∙ ap some final in
              rw (made, error, refuses)
                (at_once i before (stopped e) (ends_stopped e (omega arith) made error refuses))
          | inl agrees ↦
              let again : judge c.retry_if e ≡ some true = judged ∙ ap some agrees in
              let next = retry_loop-Trace left (suc i) (before ++ e ∷ []) (omega arith) in
              let fails = λ (p : Passes i).
                go_on i before e _
                  (record { made = made; error = error; retried = again; delayed = p }) next in
              elim (Bool-cases (ltb i (pos_part c.max_attempts - 1))) [
                | inr final ↦ rw (made, error, again, final) (fails (last_one (ground arith)))
                | inl more ↦ elim (Option-cases (calculate_delay env c i)) [
                  | inl empty ↦
                      rw (made, error, again, more, empty)
                        (at_once i before panicked (
                          ends_drawing e (ground arith) made error again
                            (calculate_delay-none i empty)))
                  | inr (delay, drawn) ↦ elim (Bool-cases (env.done_after i delay)) [
                    | inl done ↦
                        rw (made, error, again, more, drawn, done)
                          (at_once i before cancelled
                            (ends_waiting e delay (ground arith) made error again drawn done))
                    | inr waited ↦
                        rw (made, error, again, more, drawn, waited)
                          (fails (passed delay drawn waited))
                  ]
                ]
              ]
        ]
      ]
    ]
  ]

  -- Retry with a valid configuration makes a row of attempts that fail with errors to be retried, at
  -- most MaxAttempts, and ends: with success or with an error that is not retried, as the next
  -- attempt returns it; cancelled, when the context is done before the next attempt or during the
  -- delay after it; after MaxAttempts, exhausted, with the errors of all attempts in order; or in a
  -- panic after a failure of the next attempt, where RetryIf is nil or where the jitter of the delay
  -- draws a random number below one that is not positive.
  pub retry-Trace : validate_retry c ≡ none → Trace 0 [] (retry env c)
  unfolding retry
  retry-Trace valid =
      rw (retry, valid) (retry_loop-Trace (pos_part c.max_attempts) 0 [] (omega arith))
