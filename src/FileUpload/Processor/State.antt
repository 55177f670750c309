-- ===== src/FileUpload/Processor/State.antt =====
-- What is counted of a processor, and its invariant.
use native.Mathlib.Omega.{arith}
use microservices_base.Prelude.{ℕ, ◌+◌, ◌≤◌, ◌≡◌, true, List, length, String}
use microservices_base.Prelude.Int.{ℤ, pos, ltb_ℤ, pos_part}
use microservices_base.Prelude.Sums.{total}
use microservices_base.Prelude.Order.{All, all_nil}
use microservices_base.FileUpload.Processor.{
  Task, Config, Worker, idle, exited, received, handling, sleeping, Caller, passed, answered,
  Processor, new_processor, Happening, accepted, succeeded, exhausted, unhandled, lost,
}

-- A weight of tasks by what does not change of them: id, type, payload and priority.
abbrev pub Weight : Type 0
Weight = String → String → String → ℤ → ℕ

module _ (w : Weight) where
  abbrev pub weigh : Task → ℕ
  weigh task = w task.id task.task_type task.payload task.priority

  abbrev pub held : Worker → ℕ
  held idle = 0
  held exited = 0
  held (received task) = weigh task
  held (handling task) = weigh task
  held (sleeping task) = weigh task

  -- The tasks in the queue and those that a worker has.
  unfoldable pub load : Processor → ℕ
  load p = total weigh p.queue + total held p.workers

  abbrev pub enters : Happening → ℕ
  enters (accepted task) = weigh task
  enters _ = 0

  abbrev pub leaves : Happening → ℕ
  leaves (succeeded task) = weigh task
  leaves (exhausted task) = weigh task
  leaves (unhandled task) = weigh task
  leaves (lost task) = weigh task
  leaves _ = 0

-- A task that has failed fewer times than it may.
abbrev pub Fresh : Task → Type 0
Fresh task = ltb_ℤ task.retries task.max_retry ≡ true

abbrev pub FreshWorker : Worker → Type 0
FreshWorker idle = Unit
FreshWorker exited = Unit
FreshWorker (received task) = Fresh task
FreshWorker (handling task) = Fresh task
FreshWorker (sleeping task) = Fresh task

abbrev pub FreshCaller : Caller → Type 0
FreshCaller (passed task) = Fresh task
FreshCaller answered = Unit

pub record Inv (p : Processor) : Type 0 where
  pub bounded : length p.queue ≤ pos_part p.queue_size
  pub queued : All Fresh p.queue
  pub working : All FreshWorker p.workers
  pub calling : All FreshCaller p.callers
  pub usable : ltb_ℤ (pos 0) p.max_retry ≡ true

pub new_processor-Inv : (cfg : Config) → Inv (new_processor cfg)
unfolding new_processor
new_processor-Inv cfg = record {
  bounded = omega arith;
  queued = all_nil;
  working = all_nil;
  calling = all_nil;
  usable = ground arith;
}

-- The invariant of a processor with another queue, other workers and other callers.
pub Inv-parts :
    {p : Processor} (queue : List Task) (workers : List Worker) (callers : List Caller)
    → Inv p
    → length queue ≤ pos_part p.queue_size
    → All Fresh queue
    → All FreshWorker workers
    → All FreshCaller callers
    → Inv (record p { queue = queue; workers = workers; callers = callers })
Inv-parts queue workers callers v size q ws cs = record {
  bounded = size;
  queued = q;
  working = ws;
  calling = cs;
  usable = v.usable;
}

pub Inv-workers :
    {p : Processor} (workers : List Worker)
    → Inv p
    → All FreshWorker workers
    → Inv (record p { workers = workers })
Inv-workers {p} workers v ws = Inv-parts p.queue workers p.callers v v.bounded v.queued ws v.calling

pub Inv-callers :
    {p : Processor} (callers : List Caller)
    → Inv p
    → All FreshCaller callers
    → Inv (record p { callers = callers })
Inv-callers {p} callers v cs = Inv-parts p.queue p.workers callers v v.bounded v.queued v.working cs
