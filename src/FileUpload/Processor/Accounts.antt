-- ===== src/FileUpload/Processor/Accounts.antt =====
-- Where the tasks of a processor are after a row of steps.
use microservices_base.Prelude.{◌+◌, ◌≡◌, none, some, List, [], ◌∷◌}
use microservices_base.Prelude.Sums.{total}
use microservices_base.FileUpload.Processor.{Processor, Happening, Event, advance}
use microservices_base.FileUpload.Processor.State.{Weight, load, enters, leaves, Inv}

-- A row of steps; one that cannot be taken is passed over.
pub run : List Event → Processor → Processor × List Happening
run [] p = (p, [])
run (e ∷ es) p = elim (advance e p) [
  | none ↦ run es p
  | some (q, h) ↦ let (last, rest) = run es q in (last, h ∷ rest)
]

-- However tasks are weighed by their id, type, payload and priority, those that came in weigh as much
-- as those that left and those in the queue or with a worker; and the queue is within its size, and
-- every task in it, with a worker or with a caller has failed fewer times than it may.
pub record Accounted (p : Processor) (happenings : List Happening) : Type 0 where
  pub weighed : (w : Weight) → total (enters w) happenings ≡ total (leaves w) happenings + load w p
  pub inv : Inv p

module _ (w : Weight) where
  record Balanced (p : Processor) (r : Processor × List Happening) : Type 0 where
    balance : total (enters w) r.1 + load w p ≡ total (leaves w) r.1 + load w r.0
    keeps : Inv p → Inv r.0
