-- ===== src/FileUpload/Processor/Steps.antt =====
-- What each step of a processor changes.
use native.Mathlib.Omega.{arith}
use microservices_base.Prelude.{
  ℕ, suc, ◌+◌, ◌≡◌, refl, Bool, true, false, Option, none, some, List, [], ◌∷◌, length,
  length-append, get_elem?, set, replicate, if◌then◌else◌, String, subst, ap,
}
use microservices_base.Prelude.Eq.{comparable_string, member}
use microservices_base.Prelude.Int.{ℤ, pos, ltb_ℤ, pos_part}
use microservices_base.Prelude.Word.{add64}
use microservices_base.Prelude.Sums.{total, total-set, total-replicate, total-append}
use microservices_base.Prelude.Order.{
  All, all_nil, all_cons, All-append, All-set, All-at, All-replicate, All-head, All-tail,
}
use microservices_base.FileUpload.Processor.{
  Task, Worker, idle, exited, received, handling, sleeping, Caller, passed, answered, Processor,
  Happening, quiet, accepted, refused, succeeded, exhausted, unhandled, Event, registering,
  submitting, sending, starting, stopping, taking, looking, waking, quitting, finishing, submit,
  send, answer, start, stop, take_task, look_up, finish_task, requeue, work, advance, has_room,
  enqueue, context_done, queue_full, not_running, already_running, put_worker, put_caller,
}
use microservices_base.FileUpload.Processor.State.{
  Weight, weigh, held, load, enters, leaves, Fresh, FreshWorker, FreshCaller, Inv, Inv-parts,
  Inv-workers, Inv-callers,
}

-- A submitted task has not been tried.
abbrev pub New : Event → Type 0
New (submitting now task) = task.retries ≡ pos 0
New _ = Unit

module _ (w : Weight) where
  -- A step adds to the load what enters and takes from it what leaves, and keeps the invariant.
  pub record Sound (p : Processor) (r : Processor × Happening) : Type 0 where
    pub account : load w r.0 + leaves w r.1 ≡ load w p + enters w r.1
    pub keeps : Inv p → Inv r.0

  Sound-if :
      {p : Processor} {r s : Processor × Happening} (b : Bool)
      → (b ≡ true → Sound p r)
      → (b ≡ false → Sound p s)
      → Sound p (if b then r else s)
  Sound-if true f g = f refl
  Sound-if false f g = g refl

  -- A step that changes neither the queue nor the workers.
  Sound-refused : (p : Processor) (h : Happening) → leaves w h ≡ enters w h → Sound p (p, h)
  Sound-refused p h e = record { account = omega (arith, e); keeps = λ v. v }

  submit-Sound :
      (now : ℤ) (task : Task) (p : Processor) → task.retries ≡ pos 0 → Sound p (submit now task p)
  unfolding submit load
  submit-Sound now task p new =
      Sound-if p.running
        (λ on. record {
          account = refl;
          keeps = λ v. Inv-callers _ v (All-append v.calling (all_cons (rw new v.usable) all_nil));
        })
        (λ off. Sound-refused p (refused not_running) refl)

  -- A caller whose task is not sent.
  ended-Sound :
      (i : ℕ) (h : Happening) (p : Processor)
      → leaves w h ≡ enters w h
      → Sound p (put_caller i answered p, h)
  unfolding load
  ended-Sound i h p e = record {
    account = omega (arith, e);
    keeps = λ v. Inv-callers (set p.callers i answered) v (All-set p.callers i v.calling tt);
  }

  send-Sound :
      (i : ℕ) (done prefers : Bool) (task : Task) (p : Processor)
      → get_elem? p.callers i ≡ some (passed task)
      → Sound p (send i done prefers task p)
  unfolding send load total
  send-Sound i done prefers task p at_i =
      Sound-if (has_room p)
        (λ room.
          Sound-if done
            (λ d.
              Sound-if prefers (λ e. ended-Sound i (refused context_done) p refl) (λ e. sent room))
            (λ d. sent room))
        (λ full.
          Sound-if done (λ d. ended-Sound i (refused context_done) p refl)
            (λ d. ended-Sound i (refused queue_full) p refl))
    where
      sent : has_room p ≡ true → Sound p (enqueue task (put_caller i answered p), accepted task)
      sent room = record {
        account = omega (arith, total-append (weigh w) p.queue (task ∷ []));
        keeps = λ v.
            Inv-parts _ p.workers (set p.callers i answered) v
              (ground (arith, room, length-append p.queue (task ∷ [])))
              (All-append v.queued
                (all_cons (All-at {P = FreshCaller} p.callers i v.calling at_i) all_nil))
              v.working (All-set p.callers i v.calling tt);
      }

  requeue-Sound :
      (i : ℕ) (task : Task) (p : Processor)
      → get_elem? p.workers i ≡ some (sleeping task)
      → Sound p (requeue i task p)
  unfolding requeue load total
  requeue-Sound i task p h =
      Sound-if (has_room p)
        (λ room. record {
          account = omega (
            arith,
            total-set (held w) p.workers i idle h,
            total-append (weigh w) p.queue (task ∷ []),
          );
          keeps = λ v.
              Inv-parts _ (set p.workers i idle) p.callers v
                (ground (arith, room, length-append p.queue (task ∷ [])))
                (All-append v.queued
                  (all_cons (All-at {P = FreshWorker} p.workers i v.working h) all_nil))
                (All-set p.workers i v.working tt) v.calling;
        })
        (λ full. record {
          account = omega (arith, total-set (held w) p.workers i idle h);
          keeps = λ v. Inv-workers _ v (All-set p.workers i v.working tt);
        })

  start-Sound : (p : Processor) → Sound p (start p)
  unfolding start load
  start-Sound p =
      Sound-if p.running (λ on. Sound-refused p (refused already_running) refl)
        (λ off.
          let begun : List Worker = replicate (pos_part p.worker_count) idle in
          record {
            account = omega (
              arith,
              total-append (held w) p.workers begun,
              total-replicate (held w) (pos_part p.worker_count) idle refl,
            );
            keeps = λ v. record {
              bounded = v.bounded;
              queued = v.queued;
              working = All-append v.working (All-replicate (pos_part p.worker_count) idle tt);
              calling = v.calling;
              usable = v.usable;
            };
          })

  stop-Sound : (p : Processor) → Sound p (stop p)
  unfolding stop load
  stop-Sound p =
      Sound-if p.running
        (λ on. record {
          account = refl;
          keeps = λ v. record {
            bounded = v.bounded;
            queued = v.queued;
            working = v.working;
            calling = v.calling;
            usable = v.usable;
          };
        })
        (λ off. Sound-refused p quiet refl)

  -- A worker that changes its place, with the task that it had or without.
  place-Sound :
      (i : ℕ) {old : Worker} (new : Worker) (h : Happening) (p : Processor)
      → get_elem? p.workers i ≡ some old
      → held w new + leaves w h ≡ held w old + enters w h
      → (FreshWorker old → FreshWorker new)
      → Sound p (put_worker i new p, h)
  unfolding load
  place-Sound i new h p at_i e fresh = record {
    account = omega (arith, total-set (held w) p.workers i new at_i, e);
    keeps = λ v. Inv-workers _ v (
        All-set p.workers i v.working
          (fresh (All-at {P = FreshWorker} p.workers i v.working at_i)));
  }

  look_up-Sound :
      (i : ℕ) (task : Task) (p : Processor)
      → get_elem? p.workers i ≡ some (received task)
      → Sound p (look_up i task p)
  unfolding look_up
  look_up-Sound i task p h =
      Sound-if (member task.task_type p.handlers)
        (λ known. place-Sound i (handling task) quiet p h refl (λ f. f))
        (λ unknown. place-Sound i idle (unhandled task) p h (omega arith) (λ f. tt))

  finish_task-Sound :
      (i : ℕ) (task : Task) (result : Option String) (p : Processor)
      → get_elem? p.workers i ≡ some (handling task)
      → Sound p (finish_task i task result p)
  unfolding finish_task
  finish_task-Sound i task none p h =
      place-Sound i idle (succeeded task) p h (omega arith) (λ f. tt)
  finish_task-Sound i task (some message) p h =
      let failed : Task = record task { error = message; retries = add64 task.retries (pos 1) } in
      Sound-if (ltb_ℤ failed.retries failed.max_retry)
        (λ again. place-Sound i (sleeping failed) quiet p h refl (λ f. again))
        (λ over. place-Sound i idle (exhausted failed) p h (omega arith) (λ f. tt))

  -- A step that can be taken is sound.
  pub data Fine (p : Processor) : Option (Processor × Happening) → Type 0 where
    impossible : Fine p none
    possible : {r : Processor × Happening} → Sound p r → Fine p (some r)

  Fine-if :
      {p : Processor} {r s : Option (Processor × Happening)} (b : Bool)
      → (b ≡ true → Fine p r)
      → (b ≡ false → Fine p s)
      → Fine p (if b then r else s)
  Fine-if true f g = f refl
  Fine-if false f g = g refl

  take_task-Fine :
      (i : ℕ) (queue : List Task) (p : Processor)
      → p.queue ≡ queue
      → get_elem? p.workers i ≡ some idle
      → Fine p (take_task i queue p)
  unfolding take_task load total
  take_task-Fine i [] p e h = impossible
  take_task-Fine i (task ∷ rest) p e h =
      let queued : Inv p → All Fresh (task ∷ rest) = λ v. subst (All Fresh) e v.queued in
      let size : length p.queue ≡ suc (length rest) = ap length e in
      let weight : total (weigh w) p.queue ≡ weigh w task + total (weigh w) rest =
        ap (total (weigh w)) e in
      possible (record {
        account = omega (arith, weight, total-set (held w) p.workers i (received task) h);
        keeps = λ v.
            Inv-parts rest (set p.workers i (received task)) p.callers v
              (omega (arith, size, v.bounded)) (All-tail (queued v))
              (All-set p.workers i v.working (All-head (queued v))) v.calling;
      })

  -- The worker whose step it is.
  abbrev actor : Event → ℕ
  actor (taking i) = i
  actor (looking i) = i
  actor (waking i) = i
  actor (quitting i) = i
  actor (finishing i result) = i
  actor _ = 0

  work-Fine :
      (e : Event) (place : Option Worker) (p : Processor)
      → get_elem? p.workers (actor e) ≡ place
      → Fine p (work e place p)
  unfolding work
  work-Fine (taking i) (some idle) p h = take_task-Fine i p.queue p refl h
  work-Fine (looking i) (some (received task)) p h = possible (look_up-Sound i task p h)
  work-Fine (quitting i) (some idle) p h =
      Fine-if p.cancelled (λ done. possible (place-Sound i exited quiet p h refl (λ f. tt)))
        (λ on. impossible)
  work-Fine (finishing i result) (some (handling task)) p h =
      possible (finish_task-Sound i task result p h)
  work-Fine (waking i) (some (sleeping task)) p h = possible (requeue-Sound i task p h)
  work-Fine _ _ p h = impossible

  answer-Fine :
      (i : ℕ) (done prefers : Bool) (place : Option Caller) (p : Processor)
      → get_elem? p.callers i ≡ place
      → Fine p (answer i done prefers place p)
  unfolding answer
  answer-Fine i done prefers (some (passed task)) p h =
      possible (send-Sound i done prefers task p h)
  answer-Fine i done prefers (some answered) p h = impossible
  answer-Fine i done prefers none p h = impossible

  pub advance-Fine : (e : Event) (p : Processor) → New e → Fine p (advance e p)
  unfolding advance load
  advance-Fine (registering task_type) p new = possible (record {
    account = refl;
    keeps = λ v. record {
      bounded = v.bounded;
      queued = v.queued;
      working = v.working;
      calling = v.calling;
      usable = v.usable;
    };
  })
  advance-Fine (submitting now task) p new = possible (submit-Sound now task p new)
  advance-Fine (sending i done prefers) p new =
      answer-Fine i done prefers (get_elem? p.callers i) p refl
  advance-Fine starting p new = possible (start-Sound p)
  advance-Fine stopping p new = possible (stop-Sound p)
  advance-Fine (taking i) p new = work-Fine (taking i) (get_elem? p.workers i) p refl
  advance-Fine (looking i) p new = work-Fine (looking i) (get_elem? p.workers i) p refl
  advance-Fine (waking i) p new = work-Fine (waking i) (get_elem? p.workers i) p refl
  advance-Fine (quitting i) p new = work-Fine (quitting i) (get_elem? p.workers i) p refl
  advance-Fine (finishing i result) p new =
      work-Fine (finishing i result) (get_elem? p.workers i) p refl
