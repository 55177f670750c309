-- ===== src/FileUpload/Breaker.antt =====
-- services/file-upload/internal/resilience/circuit_breaker.go. Every method holds the mutex and is
-- one step. `last_failure` is only read after a failure, so the zero time stands for 0.
mod Invariant
mod Probes
mod Tests
use microservices_base.Prelude.{ℕ, ◌*◌, List, [], ◌∷◌, Bool, true, false, String, if◌then◌else◌}
use microservices_base.Prelude.Int.{ℤ, pos, leb_ℤ, ltb_ℤ}
use microservices_base.Prelude.Word.{add64, sub_time}

pub data State : Type 0 where
  closed : State
  open_state : State
  half_open : State

-- `State.String`.
unfoldable pub state_name : State → String
state_name closed = "closed"
state_name open_state = "open"
state_name half_open = "half-open"

pub record Config : Type 0 where
  pub name : String
  pub failure_threshold : ℤ
  pub reset_timeout : ℤ
  pub half_open_max_calls : ℤ

pub record Breaker : Type 0 where
  pub name : String
  pub failure_threshold : ℤ
  pub reset_timeout : ℤ
  pub half_open_max_calls : ℤ
  pub state : State
  pub failures : ℤ
  pub successes : ℤ
  pub last_failure : ℤ
  pub half_open_calls : ℤ

unfoldable pub new_breaker : Config → Breaker
new_breaker cfg = record {
  name = cfg.name;
  failure_threshold = cfg.failure_threshold;
  reset_timeout = cfg.reset_timeout;
  half_open_max_calls = cfg.half_open_max_calls;
  state = closed;
  failures = pos 0;
  successes = pos 0;
  last_failure = pos 0;
  half_open_calls = pos 0;
}

-- An entry of `DefaultConfigs`: the timeout is in seconds.
abbrev dependency : String → ℕ → ℕ → Config
dependency name threshold timeout = record {
  name = name;
  failure_threshold = pos threshold;
  reset_timeout = pos (timeout * 1000000000);
  half_open_max_calls = pos 1;
}

abbrev pub default_configs : List (String × Config)
default_configs =
    ("s3", dependency "s3" 5 30)
    ∷ ("cache", dependency "cache" 3 15)
    ∷ ("database", dependency "database" 3 15)
    ∷ []

admit : State → ℤ → Breaker → Breaker × Bool
admit closed now cb = (cb, true)
admit open_state now cb =
    if ltb_ℤ cb.reset_timeout (sub_time now cb.last_failure)
    then (record cb { state = half_open; half_open_calls = pos 0 }, true)
    else (cb, false)
admit half_open now cb =
    if ltb_ℤ cb.half_open_calls cb.half_open_max_calls
    then (record cb { half_open_calls = add64 cb.half_open_calls (pos 1) }, true)
    else (cb, false)

unfoldable pub allow : ℤ → Breaker → Breaker × Bool
unfolding admit
allow now cb = admit cb.state now cb

count_success : State → Breaker → Breaker
count_success closed cb = record cb { failures = pos 0 }
count_success open_state cb = cb
count_success half_open cb =
    let counted = record cb { successes = add64 cb.successes (pos 1) } in
    if leb_ℤ cb.half_open_max_calls counted.successes
    then record counted { state = closed; failures = pos 0; successes = pos 0 }
    else counted

unfoldable pub record_success : Breaker → Breaker
unfolding count_success
record_success cb = count_success cb.state cb

count_failure : State → Breaker → Breaker
count_failure closed cb =
    if leb_ℤ cb.failure_threshold cb.failures then record cb { state = open_state } else cb
count_failure open_state cb = cb
count_failure half_open cb = record cb { state = open_state; successes = pos 0 }

unfoldable pub record_failure : ℤ → Breaker → Breaker
unfolding count_failure
record_failure now cb =
    count_failure cb.state (record cb { failures = add64 cb.failures (pos 1); last_failure = now })

unfoldable pub reset : Breaker → Breaker
reset cb = record cb {
  state = closed;
  failures = pos 0;
  successes = pos 0;
  half_open_calls = pos 0;
}

pub record Metrics : Type 0 where
  pub name : String
  pub state : String
  pub failures : ℤ

unfoldable pub get_metrics : Breaker → Metrics
unfolding state_name
get_metrics cb = record { name = cb.name; state = state_name cb.state; failures = cb.failures }
