-- ===== src/Fault/Bulkhead/Progress.antt =====
-- Deadlocks and lost slots of a bulkhead.
use microservices_base.Prelude.{
  ℕ, ◌+◌, ◌-◌, ◌≤◌, ◌<◌, ◌≡◌, ◌≢◌, refl, Bool, false, some, List, arith, get_elem?, ◌⊎◌, inl, inr,
  Bool-cases, ltb, ◌∙◌,
}
use microservices_base.Prelude.Int.{pos, ◌<ℤ◌}
use microservices_base.Fault.Policy.{BulkheadConfig, validate_bulkhead}
use microservices_base.Fault.Bulkhead.{
  Bulkhead, Place, idle, entering, admitted, queueing, waiting, seated, leaving, giving_up, running,
  releasing, seats, queue_seats, advance, System, run, create_bulkhead, created,
}
use microservices_base.Prelude.Sums.{weight-le-total, total_pos, total-idle}
use microservices_base.Fault.Bulkhead.Invariant.{
  holds, queued, counted, Inv, before, callers_counted,
}

create-positive :
    (c : BulkheadConfig) {b : Bulkhead} → create_bulkhead c ≡ created b → pos 0 <ℤ c.max_concurrent
unfolding create_bulkhead validate_bulkhead
create-positive c h = ground arith

-- Some caller of the system is in `Execute` and can step.
abbrev pub CanStep : System → Type 0
CanStep s =
    (j : ℕ) × (q : Place) × (r : Bulkhead × Place) × (get_elem? s.callers j ≡ some q)
    × (q ≢ idle)
    × (advance q false s.bulkhead ≡ some r)

-- A caller that holds a slot can step, while the channels hold at least its own values.
holder_steps :
    (q : Place) (b : Bulkhead)
    → 0 < holds q
    → holds q ≤ b.semaphore
    → queued q ≤ b.queue
    → (r : Bulkhead × Place) × (q ≢ idle) × (advance q false b ≡ some r)
unfolding advance
holder_steps admitted b h s u = (_, (λ e. cc), refl)
holder_steps seated b h s u = (_, (λ e. cc), refl)
holder_steps leaving b h s u =
    ((record b { queue = b.queue - 1 }, running), (λ e. cc), ground arith)
holder_steps running b h s u =
    ((record b { semaphore = b.semaphore - 1 }, releasing), (λ e. cc), ground arith)
holder_steps _ b h s u = absurd (omega arith)

-- A caller inside `Execute` steps, unless it waits for a semaphore that is full.
caller_steps :
    (p : Place) (b : Bulkhead)
    → p ≢ idle
    → holds p ≤ b.semaphore
    → queued p ≤ b.queue
    → ((r : Bulkhead × Place) × (advance p false b ≡ some r)) ⊎ (seats b ≤ b.semaphore)
unfolding advance
caller_steps idle b n s u = absurd (n refl)
caller_steps entering b n s u = elim (Bool-cases (ltb b.semaphore (seats b))) [
  | inl free ↦ inl ((record b { semaphore = b.semaphore + 1 }, admitted), rw free refl)
  | inr full ↦ inr (ground arith)
]
caller_steps queueing b n s u = elim (Bool-cases (ltb b.queue (queue_seats b))) [
  | inl free ↦ inl ((record b { queue = b.queue + 1 }, waiting), rw free refl)
  | inr full ↦ inl ((b, idle), rw full refl)
]
caller_steps waiting b n s u = elim (Bool-cases (ltb b.semaphore (seats b))) [
  | inl free ↦ inl ((record b { semaphore = b.semaphore + 1 }, seated), rw free refl)
  | inr full ↦ inr (ground arith)
]
caller_steps admitted b n s u = inl (_, refl)
caller_steps seated b n s u = inl (_, refl)
caller_steps releasing b n s u = inl (_, refl)
caller_steps leaving b n s u = inl ((record b { queue = b.queue - 1 }, running), ground arith)
caller_steps giving_up b n s u = inl ((record b { queue = b.queue - 1 }, idle), ground arith)
caller_steps running b n s u =
    inl ((record b { semaphore = b.semaphore - 1 }, releasing), ground arith)

Inv-CanStep :
    (c : BulkheadConfig) (s : System)
    → pos 0 <ℤ c.max_concurrent
    → Inv c s
    → (i : ℕ) (p : Place) → get_elem? s.callers i ≡ some p
    → p ≢ idle
    → CanStep s
Inv-CanStep c s positive v i p at_i inside =
    let held : holds p ≤ s.bulkhead.semaphore =
      rw v.taken (weight-le-total holds s.callers i at_i) in
    let waits : queued p ≤ s.bulkhead.queue =
      rw v.seated_in (weight-le-total queued s.callers i at_i) in
    elim (caller_steps p s.bulkhead inside held waits) [
      | inl (r, steps) ↦ (i, p, r, at_i, inside, steps)
      | inr full ↦
          let open_seats : 0 < seats s.bulkhead = simp v.configured (omega arith) in
          let (j, q, at_j, holder) = total_pos holds s.callers (omega (arith, v.taken)) in
          let (r, busy, steps) =
            holder_steps q s.bulkhead holder (rw v.taken (weight-le-total holds s.callers j at_j))
              (rw v.seated_in (weight-le-total queued s.callers j at_j)) in
          (j, q, r, at_j, busy, steps)
    ]

-- No interleaving deadlocks: as long as some caller is inside `Execute`, some caller inside it can
-- step, with no help from a context that expires.
pub no_deadlock :
    (c : BulkheadConfig) (n : ℕ) (schedule : List (ℕ × Bool)) {b : Bulkhead}
    → create_bulkhead c ≡ created b
    → (i : ℕ) (p : Place) → get_elem? (run schedule (before n b)).callers i ≡ some p
    → p ≢ idle
    → CanStep (run schedule (before n b))
no_deadlock c n schedule {b} h =
    Inv-CanStep c (run schedule (before n b)) (create-positive c h) (callers_counted c n schedule h)

-- No slot is lost: in every interleaving, once all callers have returned, with the operation done
-- or refused, the semaphore and the queue are empty and the load is 0.
pub no_leak :
    (c : BulkheadConfig) (n : ℕ) (schedule : List (ℕ × Bool)) {b : Bulkhead}
    → create_bulkhead c ≡ created b
    → ((i : ℕ) (p : Place) → get_elem? (run schedule (before n b)).callers i ≡ some p → p ≡ idle)
    → ((run schedule (before n b)).bulkhead.semaphore ≡ 0)
      × ((run schedule (before n b)).bulkhead.queue ≡ 0)
      × ((run schedule (before n b)).bulkhead.current_load ≡ 0)
no_leak c n schedule {b} h all_idle =
    let s = run schedule (before n b) in
    let v = callers_counted c n schedule h in
    (
      v.taken ∙ total-idle holds idle s.callers all_idle refl,
      v.seated_in ∙ total-idle queued idle s.callers all_idle refl,
      v.load ∙ total-idle counted idle s.callers all_idle refl,
    )
