-- ===== src/Collections/Stack.antt =====
-- libs/go/src/collections/queue.go, Stack. Every method holds the mutex and is one step.
mod Order
use microservices_base.Prelude.{
  ℕ, ◌-◌, Bool, ◌==◌, Option, none, some, List, [], ◌∷◌, ◌++◌, length, get_elem?, take,
  if◌then◌else◌,
}

-- The top is the last of the items.
pub record Stack {ℓ} (T : Type ℓ) : Type ℓ where
  pub items : List T

module _ {ℓ} {T : Type ℓ} where
  abbrev pub new_stack : Stack T
  new_stack = record { items = [] }

  unfoldable pub push : T → Stack T → Stack T
  push item s = record { items = s.items ++ item ∷ [] }

  unfoldable pub pop : Stack T → Stack T × Option T
  pop s = if length s.items == 0 then (s, none) else (
    record { items = take (length s.items - 1) s.items },
    get_elem? s.items (length s.items - 1),
  )

  unfoldable pub peek : Stack T → Option T
  peek s = if length s.items == 0 then none else get_elem? s.items (length s.items - 1)

  unfoldable pub size : Stack T → ℕ
  size s = length s.items

  unfoldable pub is_empty : Stack T → Bool
  is_empty s = size s == 0

  unfoldable pub clear : Stack T → Stack T
  clear s = new_stack
