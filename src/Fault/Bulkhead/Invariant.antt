-- ===== src/Fault/Bulkhead/Invariant.antt =====
-- What holds of a bulkhead after any interleaving of its callers.
use microservices_base.Prelude.{
  ℕ, ◌+◌, ◌≤◌, ◌≡◌, refl, Bool, some, List, [], ◌∷◌, arith, get_elem?, set, replicate, inl, inr,
  Option-cases, ◌∙◌,
}
use microservices_base.Prelude.Int.{pos_part}
use microservices_base.Fault.Policy.{BulkheadConfig}
use microservices_base.Fault.Bulkhead.{
  Bulkhead, Place, idle, admitted, waiting, seated, leaving, giving_up, running, releasing, seats,
  queue_seats, advance, System, tick_at, tick, run, create_bulkhead, created,
}
use microservices_base.Prelude.Sums.{total, total-set, total-replicate, weight-le-total, total-le}

-- Whether a caller has a value in the semaphore.
abbrev pub holds : Place → ℕ
holds admitted = 1
holds seated = 1
holds leaving = 1
holds running = 1
holds _ = 0

-- Whether a caller has a value in the queue.
abbrev pub queued : Place → ℕ
queued waiting = 1
queued seated = 1
queued leaving = 1
queued giving_up = 1
queued _ = 0

-- Whether a caller is counted in the load.
abbrev pub counted : Place → ℕ
counted leaving = 1
counted running = 1
counted releasing = 1
counted _ = 0

-- Whether a caller is in the operation.
abbrev pub operating : Place → ℕ
operating running = 1
operating _ = 0

pub record Inv (c : BulkheadConfig) (s : System) : Type 0 where
  pub configured : s.bulkhead.config ≡ c
  pub taken : s.bulkhead.semaphore ≡ total holds s.callers
  pub seated_in : s.bulkhead.queue ≡ total queued s.callers
  pub load : s.bulkhead.current_load ≡ total counted s.callers
  pub within : s.bulkhead.semaphore ≤ seats s.bulkhead
  pub queue_within : s.bulkhead.queue ≤ queue_seats s.bulkhead

-- What one step adds to the counters is what it adds to its caller's weights.
pub record Balanced (b b' : Bulkhead) (p p' : Place) : Type 0 where
  pub kept : b'.config ≡ b.config
  pub semaphore : b'.semaphore + holds p ≡ b.semaphore + holds p'
  pub queue : b'.queue + queued p ≡ b.queue + queued p'
  pub load : counted p ≤ b.current_load → b'.current_load + counted p ≡ b.current_load + counted p'
  pub within : b.semaphore ≤ seats b → b'.semaphore ≤ seats b
  pub queue_within : b.queue ≤ queue_seats b → b'.queue ≤ queue_seats b

advance-Balanced :
    (p : Place) (done : Bool) (b b' : Bulkhead) (p' : Place)
    → advance p done b ≡ some (b', p')
    → Balanced b b' p p'
unfolding advance
advance-Balanced idle done b b' p' h = ground arith
advance-Balanced p done b b' p' h = ground arith

resume-Inv :
    (c : BulkheadConfig) (s : System) (i : ℕ) (p p' : Place) (b' : Bulkhead)
    → get_elem? s.callers i ≡ some p
    → Balanced s.bulkhead b' p p'
    → Inv c s
    → Inv c (record { bulkhead = b'; callers = set s.callers i p' })
resume-Inv c s i p p' b' at_i step v = record {
  configured = step.kept ∙ v.configured;
  taken = omega (arith, total-set holds s.callers i p' at_i);
  seated_in = omega (arith, total-set queued s.callers i p' at_i);
  load = omega (arith, total-set counted s.callers i p' at_i, step.load enough);
  within = rw step.kept (step.within v.within);
  queue_within = rw step.kept (step.queue_within v.queue_within);
}
  where
    enough : counted p ≤ s.bulkhead.current_load
    enough = omega (arith, weight-le-total counted s.callers i at_i)

tick_at-Inv :
    (c : BulkheadConfig) (s : System) (i : ℕ) (done : Bool) (p : Place)
    → get_elem? s.callers i ≡ some p
    → Inv c s
    → Inv c (tick_at i done (some p) s)
tick_at-Inv c s i done p at_i v = elim (Option-cases (advance p done s.bulkhead)) [
  | inl blocked ↦ rw blocked v
  | inr (next, stepped) ↦ rw stepped (
      resume-Inv c s i p next.1 next.0 at_i
        (advance-Balanced p done s.bulkhead next.0 next.1 stepped) v)
]

tick-Inv : (c : BulkheadConfig) (i : ℕ) (done : Bool) (s : System) → Inv c s → Inv c (tick i done s)
tick-Inv c i done s v = elim (Option-cases (get_elem? s.callers i)) [
  | inl missing ↦ rw missing v
  | inr (p, at_i) ↦ rw at_i (tick_at-Inv c s i done p at_i v)
]

run-Inv_from :
    (c : BulkheadConfig) (schedule : List (ℕ × Bool)) (s : System)
    → Inv c s
    → Inv c (run schedule s)
run-Inv_from c [] s v = v
run-Inv_from c ((i, done) ∷ schedule) s v =
    run-Inv_from c schedule (tick i done s) (tick-Inv c i done s v)

-- A new bulkhead before `n` callers.
abbrev pub before : ℕ → Bulkhead → System
before n b = record { bulkhead = b; callers = replicate n idle }

create-Inv :
    (c : BulkheadConfig) (n : ℕ) {b : Bulkhead} → create_bulkhead c ≡ created b → Inv c (before n b)
unfolding create_bulkhead
create-Inv c n h = ground (
  arith,
  total-replicate holds n idle refl,
  total-replicate queued n idle refl,
  total-replicate counted n idle refl,
)

-- From its creation on, in every interleaving of any number of callers, the channels and the load
-- of a bulkhead count exactly the callers that hold a slot, wait in the queue or are registered,
-- and neither channel holds more than its capacity.
pub callers_counted :
    (c : BulkheadConfig) (n : ℕ) (schedule : List (ℕ × Bool)) {b : Bulkhead}
    → create_bulkhead c ≡ created b
    → Inv c (run schedule (before n b))
callers_counted c n schedule {b} h = run-Inv_from c schedule (before n b) (create-Inv c n h)

operating-le-holds : (p : Place) → operating p ≤ holds p
operating-le-holds idle = omega arith
operating-le-holds _ = omega arith

-- In every interleaving at most `MaxConcurrent` callers are in the operation at once.
pub operating_bounded :
    (c : BulkheadConfig) (n : ℕ) (schedule : List (ℕ × Bool)) {b : Bulkhead}
    → create_bulkhead c ≡ created b
    → total operating (run schedule (before n b)).callers ≤ pos_part c.max_concurrent
operating_bounded c n schedule {b} h =
    let s = run schedule (before n b) in
    let v = callers_counted c n schedule h in
    let some_hold : total operating s.callers ≤ total holds s.callers =
      total-le operating holds operating-le-holds s.callers in
    let fits : s.bulkhead.semaphore ≤ pos_part c.max_concurrent = rw v.configured at v.within in
    omega (arith, v.taken)
