-- ===== src/Fault/Bulkhead/Tests.antt =====
-- The bulkhead at concrete inputs: two callers for one seat.
use microservices_base.Prelude.{
  ℕ, zero, suc, ◌≤◌, ◌≡◌, refl, Bool, false, some, List, [], ◌∷◌, get_elem?,
}
use microservices_base.Prelude.Int.{pos}
use microservices_base.Fault.Policy.{BulkheadConfig, validate_bulkhead}
use microservices_base.Fault.Bulkhead.{
  Bulkhead, Place, idle, waiting, create_bulkhead, created, advance, run,
}
use microservices_base.Prelude.Sums.{total}
use microservices_base.Fault.Bulkhead.Invariant.{
  Inv, before, operating, callers_counted, operating_bounded,
}
use microservices_base.Fault.Bulkhead.Progress.{CanStep, no_deadlock, no_leak}

program : Unit {0}
unfolding validate_bulkhead create_bulkhead advance total
program = tt

abbrev one_seat : BulkheadConfig
one_seat = record { max_concurrent = pos 1; max_wait = pos 0; queue_size = pos 1 }

abbrev fresh : Bulkhead
fresh = record {
  config = one_seat;
  semaphore = 0;
  queue = 0;
  current_load = 0;
  correlation_id = "";
  service = "";
}

fresh_created : create_bulkhead one_seat ≡ created fresh
unfolding program
fresh_created = refl

-- The first caller runs, the second waits.
abbrev contended : List (ℕ × Bool)
contended =
    (0, false) ∷ (0, false) ∷ (0, false) ∷ (1, false) ∷ (1, false) ∷ (1, false) ∷ (1, false) ∷ []

callers_counted_example : Inv one_seat (run contended (before 2 fresh))
callers_counted_example = callers_counted one_seat 2 contended fresh_created

operating_bounded_example : total operating (run contended (before 2 fresh)).callers ≤ 1
operating_bounded_example = operating_bounded one_seat 2 contended fresh_created

no_deadlock_example : CanStep (run contended (before 2 fresh))
unfolding program
no_deadlock_example = no_deadlock one_seat 2 contended fresh_created 1 waiting refl (λ e. cc)

-- The first caller finishes.
abbrev finished : List (ℕ × Bool)
finished = (0, false) ∷ (0, false) ∷ (0, false) ∷ (0, false) ∷ (0, false) ∷ []

all_idle :
    (i : ℕ) (p : Place) → get_elem? (run finished (before 2 fresh)).callers i ≡ some p → p ≡ idle
unfolding program
all_idle zero p h = cc
all_idle (suc zero) p h = cc
all_idle (suc (suc i)) p h = cc

no_leak_example :
    ((run finished (before 2 fresh)).bulkhead.semaphore ≡ 0)
    × ((run finished (before 2 fresh)).bulkhead.queue ≡ 0)
    × ((run finished (before 2 fresh)).bulkhead.current_load ≡ 0)
no_leak_example = no_leak one_seat 2 finished fresh_created all_idle
