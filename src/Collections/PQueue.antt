-- ===== src/Collections/PQueue.antt =====
-- libs/go/src/collections/pqueue.go, with the functions of the standard library's container/heap that
-- it calls. A read or a write out of range panics, which is `none`.
mod Array
mod Order
mod Up
mod Down
mod Ops
mod Drain
mod Tests
use microservices_base.Prelude.{
  ℕ, zero, suc, ◌+◌, ◌-◌, ◌*◌, ◌/◌, Bool, true, false, ◌==◌, ltb, Option, none, some, List, [], ◌∷◌,
  ◌++◌, ◌>>=◌, length, get_elem?, set, take, if◌then◌else◌,
}
use microservices_base.Prelude.Int.{ℤ, ltb_ℤ}

-- `less` is a field that no operation changes.
pub record PriorityQueue {ℓ} (A : Type ℓ) : Type ℓ where
  pub items : List A
  pub less : A → A → Bool

-- pqHeap's Swap and Less.
unfoldable pub swap_at {ℓ} : {A : Type ℓ} → List A → ℕ → ℕ → Option (List A)
swap_at h i j = do x ← get_elem? h i; y ← get_elem? h j; some (set (set h i y) j x)

module _ {ℓ} {A : Type ℓ} (less : A → A → Bool) where
  unfoldable pub less_at : List A → ℕ → ℕ → Option Bool
  less_at h i j = do x ← get_elem? h i; y ← get_elem? h j; some (less x y)

  -- container/heap's `up`, whose parent of 0 is 0.
  unfoldable pub up_loop : ℕ → List A → ℕ → Option (List A)
  up_loop zero h j = none
  up_loop (suc fuel) h j =
      let i = (j - 1) / 2 in
      let rise = swap_at h i j >>= λ g. up_loop fuel g i in
      if i == j then some h else (less_at h j i >>= λ below. if below then rise else some h)

  unfoldable pub up : List A → ℕ → Option (List A)
  up h j = up_loop (suc j) h j

  -- The child of `i` that `down` compares: the left one is at `j1`.
  unfoldable pub lesser_child : List A → ℕ → ℕ → Option ℕ
  lesser_child h j1 n =
      if ltb (j1 + 1) n
      then (less_at h (j1 + 1) j1 >>= λ right. some (if right then j1 + 1 else j1))
      else some j1

  unfoldable pub down_loop : ℕ → List A → ℕ → ℕ → Option (List A)
  down_loop zero h i n = none
  down_loop (suc fuel) h i n =
      let j1 = 2 * i + 1 in
      let step = do
        j ← lesser_child h j1 n
        below ← less_at h j i
        let sink = swap_at h i j >>= λ g. down_loop fuel g j n
        if below then sink else some h
      in if ltb j1 n then step else some h

  unfoldable pub down : List A → ℕ → ℕ → Option (List A)
  down h i n = down_loop (suc n) h i n

  -- heap.Push and heap.Pop.
  unfoldable pub heap_push : List A → A → Option (List A)
  heap_push h x = up (h ++ x ∷ []) (length h)

  unfoldable pub heap_pop : List A → Option (A × List A)
  heap_pop h = do
    let n = length h - 1
    swapped ← swap_at h 0 n
    sunk ← down swapped 0 n
    x ← get_elem? sunk n
    some (x, take n sunk)

module _ {ℓ} {A : Type ℓ} where
  -- heap.Init has nothing to do on an empty heap.
  unfoldable pub new_priority_queue : (A → A → Bool) → PriorityQueue A
  new_priority_queue less = record { items = []; less = less }

  unfoldable pub push : A → PriorityQueue A → Option (PriorityQueue A)
  push item pq = do items ← heap_push pq.less pq.items item; some (record pq { items = items })

  -- The inner option is the answer.
  unfoldable pub pop : PriorityQueue A → Option (Option A × PriorityQueue A)
  pop pq = if length pq.items == 0 then some (none, pq) else (do
    (item, items) ← heap_pop pq.less pq.items
    some (some item, record pq { items = items }))

  unfoldable pub peek : PriorityQueue A → Option A
  peek pq = get_elem? pq.items 0

  unfoldable pub size : PriorityQueue A → ℕ
  size pq = length pq.items

  unfoldable pub is_empty : PriorityQueue A → Bool
  is_empty pq = length pq.items == 0

  unfoldable pub clear : PriorityQueue A → PriorityQueue A
  clear pq = record pq { items = [] }

  unfoldable pub to_slice : PriorityQueue A → List A
  to_slice pq = pq.items

-- PriorityItem, and the queue by priority, the highest first.
pub record PriorityItem {ℓ} (A : Type ℓ) : Type ℓ where
  pub value : A
  pub priority : ℤ

unfoldable pub min_heap : PriorityQueue ℤ
min_heap = new_priority_queue ltb_ℤ

unfoldable pub max_heap : PriorityQueue ℤ
max_heap = new_priority_queue (λ a b. ltb_ℤ b a)

unfoldable pub new_priority_queue_with_priority {ℓ} : {A : Type ℓ} → PriorityQueue (PriorityItem A)
new_priority_queue_with_priority = new_priority_queue (λ a b. ltb_ℤ b.priority a.priority)
