-- ===== src/Fault/Bulkhead.antt =====
-- libs/go/src/fault/bulkhead.go. The two buffered channels are the numbers of values that they
-- hold. A caller goes through `Execute` in steps, one for each operation on a channel or under
-- the mutex, and any caller may step next.
mod Invariant
mod Progress
mod Tests
use microservices_base.Prelude.{
  ℕ, zero, suc, ◌+◌, ◌-◌, String, Bool, true, false, Option, none, some, List, [], ◌∷◌, ltb, ◌==◌,
  if◌then◌else◌, get_elem?, set,
}
use microservices_base.Prelude.Int.{pos_part}
use microservices_base.Fault.Policy.{BulkheadConfig, InvalidPolicy, validate_bulkhead}

pub record Bulkhead : Type 0 where
  pub config : BulkheadConfig
  pub semaphore : ℕ  -- the length of the channel
  pub queue : ℕ  -- the length of the channel
  pub current_load : ℕ
  pub correlation_id : String
  pub service : String

pub data Created : Type 0 where
  created : Bulkhead → Created
  refused : InvalidPolicy → Created

-- `NewBulkhead`.
unfoldable pub create_bulkhead : BulkheadConfig → Created
create_bulkhead c = elim (validate_bulkhead c) [
  | some e ↦ refused e
  | none ↦ created (record {
    config = c;
    semaphore = 0;
    queue = 0;
    current_load = 0;
    correlation_id = "";
    service = "";
  })
]

-- Where a caller stands in `Execute`.
pub data Place : Type 0 where
  idle : Place
  entering : Place  -- before the first `select` of `acquire`
  admitted : Place  -- the semaphore taken at once, before `incrementLoad`
  queueing : Place  -- before the `select` on the queue
  waiting : Place  -- in the queue, before the last `select`
  seated : Place  -- the semaphore taken from the queue, before `incrementLoad`
  leaving : Place  -- counted, before the deferred receive from the queue
  giving_up : Place  -- the context is done, before the deferred receive from the queue
  running : Place  -- in the operation
  releasing : Place  -- after the receive from the semaphore, before `decrementLoad`

abbrev pub seats : Bulkhead → ℕ
seats b = pos_part b.config.max_concurrent

abbrev pub queue_seats : Bulkhead → ℕ
queue_seats b = pos_part b.config.queue_size

-- One step of a caller; `none` while it is blocked. Where the last `select` may take either
-- branch, `done` says that the context is done and that this branch is taken.
unfoldable pub advance : Place → Bool → Bulkhead → Option (Bulkhead × Place)
advance idle done b = some (b, entering)
advance entering done b =
    if ltb b.semaphore (seats b)
    then some (record b { semaphore = b.semaphore + 1 }, admitted)
    else some (b, queueing)
advance admitted done b = some (record b { current_load = b.current_load + 1 }, running)
advance queueing done b =
    if ltb b.queue (queue_seats b)
    then some (record b { queue = b.queue + 1 }, waiting)
    else some (b, idle)
advance waiting done b =
    if done
    then some (b, giving_up)
    else if ltb b.semaphore (seats b)
    then some (record b { semaphore = b.semaphore + 1 }, seated)
    else none
advance seated done b = some (record b { current_load = b.current_load + 1 }, leaving)
advance leaving done b =
    if b.queue == 0 then none else some (record b { queue = b.queue - 1 }, running)
advance giving_up done b =
    if b.queue == 0 then none else some (record b { queue = b.queue - 1 }, idle)
advance running done b =
    if b.semaphore == 0 then none else some (record b { semaphore = b.semaphore - 1 }, releasing)
advance releasing done b = some (record b { current_load = b.current_load - 1 }, idle)

-- The bulkhead and its callers.
pub record System : Type 0 where
  pub bulkhead : Bulkhead
  pub callers : List Place

abbrev pub resume : ℕ → Option (Bulkhead × Place) → System → System
resume i none s = s
resume i (some (b, place)) s = record { bulkhead = b; callers = set s.callers i place }

abbrev pub tick_at : ℕ → Bool → Option Place → System → System
tick_at i done none s = s
tick_at i done (some place) s = resume i (advance place done s.bulkhead) s

abbrev pub tick : ℕ → Bool → System → System
tick i done s = tick_at i done (get_elem? s.callers i) s

-- A schedule says which caller steps next.
abbrev pub run : List (ℕ × Bool) → System → System
run [] s = s
run ((i, done) ∷ schedule) s = run schedule (tick i done s)
