-- ===== src/Collections/Queue/Order.antt =====
-- The order in which items leave a queue.
use mathlib.Core.List.{append_assoc, append-nil}
use microservices_base.Prelude.{◌≡◌, sym, ap, ◌∙◌, Option, none, some, List, [], ◌∷◌, ◌++◌}
use microservices_base.Collections.Queue.{Queue, new_queue, enqueue, dequeue}

pub data Call {ℓ} (T : Type ℓ) : Type ℓ where
  entering : T → Call T
  leaving : Call T

module _ {ℓ} {T : Type ℓ} where
  abbrev onto : Option T → List T → List T
  onto none taken = taken
  onto (some item) taken = item ∷ taken

  -- What is left of a queue after a row of calls, and the items that left it, in their order.
  abbrev pub serve_all : List (Call T) → Queue T → Queue T × List T
  serve_all [] q = (q, [])
  serve_all (entering item ∷ calls) q = serve_all calls (enqueue item q)
  serve_all (leaving ∷ calls) q =
      let (left, item) = dequeue q in
      let (end, taken) = serve_all calls left in (end, onto item taken)

  abbrev pub entered : List (Call T) → List T
  entered [] = []
  entered (entering item ∷ calls) = item ∷ entered calls
  entered (leaving ∷ calls) = entered calls

  abbrev holding : List T → Queue T
  holding items = record { items = items }

  served :
      (calls : List (Call T)) (items : List T)
      → (serve_all calls (holding items)).1 ++ (serve_all calls (holding items)).0.items
        ≡ items ++ entered calls
  unfolding enqueue dequeue
  served [] items = sym (append-nil items)
  served (entering item ∷ calls) items =
      served calls (items ++ item ∷ []) ∙ append_assoc items (item ∷ []) (entered calls)
  served (leaving ∷ calls) [] = served calls []
  served (leaving ∷ calls) (item ∷ items) = ap (◌∷◌ item) (served calls items)

  -- In every row of calls of a new queue, the items that Dequeue returned, followed by those that are
  -- left in the queue, are the items that Enqueue was given, each once and in their order.
  pub serve_all-new_queue :
      (calls : List (Call T))
      → (serve_all calls new_queue).1 ++ (serve_all calls new_queue).0.items ≡ entered calls
  serve_all-new_queue calls = served calls []
