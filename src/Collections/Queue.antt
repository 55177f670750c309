-- ===== src/Collections/Queue.antt =====
-- libs/go/src/collections/queue.go, Queue. Every method holds the mutex and is one step.
mod Order
use microservices_base.Prelude.{ℕ, Bool, ◌==◌, Option, none, some, List, [], ◌∷◌, ◌++◌, length}

pub record Queue {ℓ} (T : Type ℓ) : Type ℓ where
  pub items : List T

module _ {ℓ} {T : Type ℓ} where
  abbrev pub new_queue : Queue T
  new_queue = record { items = [] }

  unfoldable pub enqueue : T → Queue T → Queue T
  enqueue item q = record { items = q.items ++ item ∷ [] }

  -- What is left of the queue and the item that is returned.
  abbrev dequeue_items : List T → Queue T × Option T
  dequeue_items [] = (record { items = [] }, none)
  dequeue_items (item ∷ items) = (record { items = items }, some item)

  unfoldable pub dequeue : Queue T → Queue T × Option T
  dequeue q = dequeue_items q.items

  unfoldable pub peek : Queue T → Option T
  peek q = (dequeue_items q.items).1

  unfoldable pub size : Queue T → ℕ
  size q = length q.items

  unfoldable pub is_empty : Queue T → Bool
  is_empty q = size q == 0

  unfoldable pub clear : Queue T → Queue T
  clear q = new_queue

  unfoldable pub to_slice : Queue T → List T
  to_slice q = q.items
