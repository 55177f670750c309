-- ===== src/Collections/PQueue/Tests.antt =====
-- A small queue.
use native.Mathlib.Omega.{arith}
use microservices_base.Prelude.{ℕ, ◌>>=◌, ◌≡◌, refl, some, List, [], ◌∷◌, length, ltb}
use microservices_base.Prelude.Order.{StrictWeakOrder}
use microservices_base.Collections.PQueue.{
  new_priority_queue, push, pop, heap_push, heap_pop, up, up_loop, down, down_loop, lesser_child,
  less_at, swap_at,
}
use microservices_base.Collections.PQueue.Drain.{push_all, pop_all, pop_all-push_all, Rising}

ltb-StrictWeakOrder : StrictWeakOrder ltb
ltb-StrictWeakOrder = record {
  asymmetric = λ a b h. ground arith;
  neg_transitive = λ a b c p q. ground arith;
}

abbrev items : List ℕ
items = 5 ∷ 2 ∷ 8 ∷ 1 ∷ 9 ∷ 3 ∷ []

drain_run :
    (push_all items (new_priority_queue ltb) >>= pop_all 6) ≡ some (1 ∷ 2 ∷ 3 ∷ 5 ∷ 8 ∷ 9 ∷ [])
unfolding push_all pop_all new_priority_queue push pop heap_push heap_pop up up_loop down down_loop
    lesser_child less_at swap_at
drain_run = refl

pop_all-push_all_example :
    (l : List ℕ) × ((push_all items (new_priority_queue ltb) >>= pop_all (length items)) ≡ some l)
    × Rising ltb items l
pop_all-push_all_example = pop_all-push_all ltb ltb-StrictWeakOrder items
