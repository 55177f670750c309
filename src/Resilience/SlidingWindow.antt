-- ===== src/Resilience/SlidingWindow.antt =====
-- libs/go/resilience/ratelimit/sliding_window.go. Every method holds the mutex and is one step.
-- `emitted` records the events that are emitted, latest first, with the key and the decision.
mod Spacing
mod Granted
mod Tests
use microservices_base.Prelude.{
  ℕ, ◌/◌, Bool, true, false, String, List, [], ◌∷◌, ◌++◌, length, if◌then◌else◌,
}
use microservices_base.Prelude.Int.{ℤ, pos, negsuc, ltb_ℤ, ◌+ℤ◌, ◌-ℤ◌}
use microservices_base.Prelude.Word.{sub_time}

pub record SlidingWindowConfig : Type 0 where
  pub limit : ℤ
  pub window : ℤ

-- `RateLimitDecision`, a type of a package that is not in the repository, with the fields that are set.
pub record Decision : Type 0 where
  pub allowed : Bool
  pub limit : ℤ
  pub remaining : ℤ
  pub reset_at : ℤ
  pub retry_after : ℤ

pub record SlidingWindow : Type 0 where
  pub limit : ℤ
  pub window : ℤ
  pub requests : List ℤ
  pub emitted : List (String × Decision)

unfoldable pub new_sliding_window : SlidingWindowConfig → SlidingWindow
new_sliding_window cfg = record {
  limit = cfg.limit;
  window = cfg.window;
  requests = [];
  emitted = [];
}

-- The requests from the first one after the start of the window on.
unfoldable pub from_first_valid : ℤ → List ℤ → List ℤ
from_first_valid start [] = []
from_first_valid start (t ∷ requests) =
    let rest = from_first_valid start requests in if ltb_ℤ start t then t ∷ requests else rest

unfoldable pub prune_old_requests : ℤ → SlidingWindow → SlidingWindow
unfolding from_first_valid
prune_old_requests now sw = record sw { requests = from_first_valid (now -ℤ sw.window) sw.requests }

abbrev calculate_reset_time : ℤ → ℤ → List ℤ → ℤ
calculate_reset_time now window [] = now
calculate_reset_time now window (oldest ∷ requests) = oldest +ℤ window

abbrev calculate_retry_after : ℤ → ℤ → List ℤ → ℤ
calculate_retry_after now window [] = pos 0
calculate_retry_after now window (oldest ∷ requests) =
    let expiry = oldest +ℤ window in if ltb_ℤ now expiry then sub_time expiry now else pos 0

-- `limit - len(requests)`.
abbrev remaining_of : SlidingWindow → ℤ
remaining_of sw = sw.limit -ℤ pos (length sw.requests)

-- `Allow` after the requests are pruned.
pub decide : ℤ → String → SlidingWindow → SlidingWindow × Decision
decide now key sw =
    let reset = calculate_reset_time now sw.window sw.requests in
    let recorded = record sw { requests = sw.requests ++ now ∷ [] } in
    let refusal : Decision = record {
      allowed = false;
      limit = sw.limit;
      remaining = remaining_of sw;
      reset_at = reset;
      retry_after = calculate_retry_after now sw.window sw.requests;
    } in
    if ltb_ℤ (pos (length sw.requests)) sw.limit
    then (
      recorded,
      record {
        allowed = true;
        limit = sw.limit;
        remaining = remaining_of recorded;
        reset_at = reset;
        retry_after = pos 0;
      },
    )
    else (record sw { emitted = (key, refusal) ∷ sw.emitted }, refusal)

unfoldable pub allow : ℤ → String → SlidingWindow → SlidingWindow × Decision
unfolding prune_old_requests decide
allow now key sw = decide now key (prune_old_requests now sw)

pub record Headers : Type 0 where
  pub limit : ℤ
  pub remaining : ℤ
  pub reset : ℤ

-- `Time.Unix`: the whole seconds since the epoch, rounded down.
abbrev unix : ℤ → ℤ
unix (pos n) = pos (n / 1000000000)
unix (negsuc n) = negsuc (n / 1000000000)

unfoldable pub get_headers : ℤ → SlidingWindow → SlidingWindow × Headers
unfolding prune_old_requests
get_headers now sw =
    let sw' = prune_old_requests now sw in
    (
      sw',
      record {
        limit = sw'.limit;
        remaining = remaining_of sw';
        reset = unix (calculate_reset_time now sw'.window sw'.requests);
      },
    )

unfoldable pub get_requests : ℤ → SlidingWindow → SlidingWindow × List ℤ
unfolding prune_old_requests
get_requests now sw = let sw' = prune_old_requests now sw in (sw', sw'.requests)

unfoldable pub get_request_count : ℤ → SlidingWindow → SlidingWindow × ℕ
unfolding prune_old_requests
get_request_count now sw = let sw' = prune_old_requests now sw in (sw', length sw'.requests)
