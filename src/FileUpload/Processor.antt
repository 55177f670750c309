-- ===== src/FileUpload/Processor.antt =====
-- services/file-upload/internal/async/processor.go: the queue of tasks and its workers. A step is
-- one operation on the channel, one critical section, or the end of a handler or of a sleep. A pointer
-- to a task is a value: no task is submitted again while the processor has it, and no handler changes
-- one. Start is not called while a Stop waits for the workers.
mod State
mod Steps
mod Accounts
mod Delay
mod Tests
use native.Mathlib.Omega.{arith}
use microservices_base.Prelude.{
  ℕ, zero, suc, ◌+◌, ◌*◌, Bool, true, false, Option, none, some, List, [], ◌∷◌, ◌++◌, String,
  length, get_elem?, set, replicate, if◌then◌else◌,
}
use microservices_base.Prelude.Eq.{comparable_string, member}
use microservices_base.Prelude.Int.{ℤ, pos, ltb_ℤ, leb_ℤ, pos_part}
use microservices_base.Prelude.Word.{add64, mul64}

pub record Task : Type 0 where
  pub id : String
  pub task_type : String
  pub payload : String
  pub priority : ℤ
  pub retries : ℤ
  pub max_retry : ℤ
  pub created_at : ℤ
  pub error : String

pub record Config : Type 0 where
  pub workers : ℤ
  pub queue_size : ℤ
  pub max_retries : ℤ
  pub retry_base_delay : ℤ

-- Where the goroutine of a worker is.
pub data Worker : Type 0 where
  idle exited : Worker
  received handling sleeping : Task → Worker

-- Where a caller of Submit is: past the test of `running`, with its task stamped, or at the end.
pub data Caller : Type 0 where
  passed : Task → Caller
  answered : Caller

-- `handlers` lists the types that have a handler; `worker_count` is the field `workers`, and
-- `workers` the goroutines that Start has begun. A context is whether it is cancelled.
pub record Processor : Type 0 where
  pub handlers : List String
  pub queue : List Task
  pub queue_size : ℤ
  pub worker_count : ℤ
  pub max_retry : ℤ
  pub base_delay : ℤ
  pub workers : List Worker
  pub callers : List Caller
  pub cancelled : Bool
  pub running : Bool

abbrev pub or_default : ℤ → ℤ → ℤ
or_default n default = if leb_ℤ n (pos 0) then default else n

unfoldable pub new_processor : Config → Processor
new_processor cfg = record {
  handlers = [];
  queue = [];
  queue_size = or_default cfg.queue_size (pos 100);
  worker_count = or_default cfg.workers (pos 4);
  max_retry = or_default cfg.max_retries (pos 3);
  base_delay = or_default cfg.retry_base_delay (pos 1000000000);
  workers = [];
  callers = [];
  cancelled = false;
  running = false;
}

pub data ProcessorError : Type 0 where
  not_running already_running queue_full context_done : ProcessorError

-- `ProcessorError.Error`; an error of the context is its own.
unfoldable pub error_text : ProcessorError → String
error_text not_running = "NOT_RUNNING: processor not running"
error_text already_running = "ALREADY_RUNNING: processor already running"
error_text queue_full = "QUEUE_FULL: task queue is full"
error_text context_done = ""

-- What a step shows: a task comes in or is refused, or a task leaves the processor.
pub data Happening : Type 0 where
  quiet : Happening
  accepted : Task → Happening
  refused : ProcessorError → Happening
  succeeded exhausted unhandled lost : Task → Happening

-- A step of a caller or of a worker, by its number. `prefers_context` is how a `select` with two ready
-- cases is decided.
pub data Event : Type 0 where
  registering : String → Event
  submitting : (now : ℤ) → Task → Event
  sending : ℕ → (context_is_done prefers_context : Bool) → Event
  starting stopping : Event
  taking looking waking quitting : ℕ → Event
  finishing : ℕ → Option String → Event

abbrev pub has_room : Processor → Bool
has_room p = ltb_ℤ (pos (length p.queue)) p.queue_size

abbrev pub enqueue : Task → Processor → Processor
enqueue task p = record p { queue = p.queue ++ task ∷ [] }

-- Submit up to its select.
unfoldable pub submit : ℤ → Task → Processor → Processor × Happening
submit now task p =
    let stamped = record task { max_retry = p.max_retry; created_at = now } in
    if p.running
    then (record p { callers = p.callers ++ passed stamped ∷ [] }, quiet)
    else (p, refused not_running)

abbrev pub put_caller : ℕ → Caller → Processor → Processor
put_caller i c p = record p { callers = set p.callers i c }

-- The select of Submit.
unfoldable pub send : ℕ → Bool → Bool → Task → Processor → Processor × Happening
send i context_is_done prefers_context task p =
    let back = put_caller i answered p in
    let sent : Processor × Happening = (enqueue task back, accepted task) in
    let ended : Processor × Happening = (back, refused context_done) in
    if has_room p
    then (if context_is_done then (if prefers_context then ended else sent) else sent)
    else (if context_is_done then ended else (back, refused queue_full))

-- A step of a caller, by where it is; `none` is a step that cannot be taken.
unfoldable pub answer : ℕ → Bool → Bool → Option Caller → Processor → Option (Processor × Happening)
answer i done prefers (some (passed task)) p = some (send i done prefers task p)
answer i done prefers _ p = none

unfoldable pub start : Processor → Processor × Happening
start p = if p.running then (p, refused already_running) else (
  record p {
    cancelled = false;
    running = true;
    workers = p.workers ++ replicate (pos_part p.worker_count) idle;
  },
  quiet,
)

-- Stop up to its wait for the workers, which changes nothing.
unfoldable pub stop : Processor → Processor × Happening
stop p = if p.running then (record p { running = false; cancelled = true }, quiet) else (p, quiet)

abbrev pub put_worker : ℕ → Worker → Processor → Processor
put_worker i w p = record p { workers = set p.workers i w }

-- The receive of an idle worker.
unfoldable pub take_task : ℕ → List Task → Processor → Option (Processor × Happening)
take_task i [] p = none
take_task i (task ∷ rest) p = some (put_worker i (received task) (record p { queue = rest }), quiet)

-- The start of `processTask`, which reads the handlers.
unfoldable pub look_up : ℕ → Task → Processor → Processor × Happening
look_up i task p =
    if member task.task_type p.handlers
    then (put_worker i (handling task) p, quiet)
    else (put_worker i idle p, unhandled task)

-- The end of the handler.
unfoldable pub finish_task : ℕ → Task → Option String → Processor → Processor × Happening
finish_task i task none p = (put_worker i idle p, succeeded task)
finish_task i task (some message) p =
    let failed = record task { error = message; retries = add64 task.retries (pos 1) } in
    if ltb_ℤ failed.retries failed.max_retry
    then (put_worker i (sleeping failed) p, quiet)
    else (put_worker i idle p, exhausted failed)

-- The end of the sleep.
unfoldable pub requeue : ℕ → Task → Processor → Processor × Happening
requeue i task p =
    let free = put_worker i idle p in
    if has_room p then (enqueue task free, quiet) else (free, lost task)

-- A step of a worker, by where it is; `none` is a step that cannot be taken.
unfoldable pub work : Event → Option Worker → Processor → Option (Processor × Happening)
work (taking i) (some idle) p = take_task i p.queue p
work (looking i) (some (received task)) p = some (look_up i task p)
work (quitting i) (some idle) p = if p.cancelled then some (put_worker i exited p, quiet) else none
work (finishing i result) (some (handling task)) p = some (finish_task i task result p)
work (waking i) (some (sleeping task)) p = some (requeue i task p)
work _ _ p = none

unfoldable pub advance : Event → Processor → Option (Processor × Happening)
advance (registering task_type) p = some (record p { handlers = task_type ∷ p.handlers }, quiet)
advance (submitting now task) p = some (submit now task p)
advance (sending i done prefers) p = answer i done prefers (get_elem? p.callers i) p
advance starting p = some (start p)
advance stopping p = some (stop p)
advance (taking i) p = work (taking i) (get_elem? p.workers i) p
advance (looking i) p = work (looking i) (get_elem? p.workers i) p
advance (waking i) p = work (waking i) (get_elem? p.workers i) p
advance (quitting i) p = work (quitting i) (get_elem? p.workers i) p
advance (finishing i result) p = work (finishing i result) (get_elem? p.workers i) p

abbrev pub queue_depth : Processor → ℕ
queue_depth p = length p.queue

-- Five minutes.
abbrev pub max_delay : ℤ
max_delay = pos 300000000000

unfoldable pub double_delay : ℕ → ℤ → ℤ
double_delay zero delay = delay
double_delay (suc n) delay = double_delay n (mul64 delay (pos 2))

-- The number of retries is positive when the delay is asked for.
unfoldable pub calculate_retry_delay : ℕ → Processor → ℤ
calculate_retry_delay retries p =
    let delay = double_delay retries p.base_delay in
    if ltb_ℤ max_delay delay then max_delay else delay
