-- ===== src/Collections/PQueue/Drain.antt =====
-- Rows of pushes and pops.
use mathlib.Core.List.{Perm, perm_middle, append-nil}
use mathlib.Core.List.Perm
use native.Mathlib.Omega.{arith}
use microservices_base.Prelude.{
  ℕ, ◌>>=◌, zero, suc, ◌+◌, ◌≡◌, refl, subst, ◌∙◌, Bool, Option, none, some, List, [], ◌∷◌, ◌++◌,
  length,
}
use microservices_base.Prelude.Order.{
  StrictWeakOrder, SortedBy, sorted_nil, sorted_cons, All-perm, All-tail,
}
use microservices_base.Collections.PQueue.{PriorityQueue, new_priority_queue, push, pop}
use microservices_base.Collections.PQueue.Ops.{Inv, push-Pushed, pop-Taken}

module _ {ℓ} {A : Type ℓ} where
  unfoldable pub push_all : List A → PriorityQueue A → Option (PriorityQueue A)
  push_all [] pq = some pq
  push_all (x ∷ l) pq = push x pq >>= push_all l

  -- The items that as many pops return.
  unfoldable pub pop_all : ℕ → PriorityQueue A → Option (List A)
  pop_all zero pq = some []
  pop_all (suc n) pq = pop pq >>= λ (item, next). elim item [
    | none ↦ none
    | some x ↦ pop_all n next >>= λ l. some (x ∷ l)
  ]

  -- The items in their order.
  pub record Rising (less : A → A → Bool) (items l : List A) : Type ℓ where
    pub sorted : SortedBy less l
    pub same : Perm l items

  pop_all-cons :
      (n : ℕ) (pq next : PriorityQueue A) {x : A} {l : List A}
      → pop pq ≡ some (some x, next)
      → pop_all n next ≡ some l
      → pop_all (suc n) pq ≡ some (x ∷ l)
  unfolding pop_all
  pop_all-cons n pq next e f = rw (pop_all, e, f) refl

  empty-perm : (items : List A) → length items ≡ 0 → Perm [] items
  empty-perm [] e = Perm.nil
  empty-perm (x ∷ items) e = absurd (omega arith)

  pop_all-Rising :
      (n : ℕ) (pq : PriorityQueue A)
      → Inv pq
      → length pq.items ≡ n
      → (l : List A) × (pop_all n pq ≡ some l) × Rising pq.less pq.items l
  unfolding pop_all
  pop_all-Rising zero pq v e =
      ([], refl, record { sorted = sorted_nil; same = empty-perm pq.items e })
  pop_all-Rising (suc n) pq v e =
      let (x, next, h, t) = pop-Taken pq n v e in
      let (l, f, r) = pop_all-Rising n next t.inv (omega (arith, t.size)) in
      (
        x ∷ l,
        pop_all-cons n pq next h f,
        record {
          sorted =
              sorted_cons
                (All-perm (λ y. pq.less y x) r.same
                  (All-tail (All-perm (λ y. pq.less y x) t.same t.least)))
                (subst (λ less. SortedBy less l) t.same_less r.sorted);
          same = Perm.trans (Perm.cons x r.same) t.same;
        },
      )

  -- What a row of pushes leaves.
  record Filled (items : List A) (pq next : PriorityQueue A) : Type ℓ where
    inv : Inv next
    same_less : next.less ≡ pq.less
    same : Perm next.items (items ++ pq.items)
    size : length next.items ≡ length items + length pq.items

  push_all-cons :
      (x : A) (l : List A) (pq next : PriorityQueue A) {last : PriorityQueue A}
      → push x pq ≡ some next
      → push_all l next ≡ some last
      → push_all (x ∷ l) pq ≡ some last
  unfolding push_all
  push_all-cons x l pq next e f = rw (push_all, e, f) refl

  push_all-Filled :
      (items : List A) (pq : PriorityQueue A)
      → Inv pq
      → (next : PriorityQueue A) × (push_all items pq ≡ some next) × Filled items pq next
  unfolding push_all
  push_all-Filled [] pq v =
      (pq, refl, record { inv = v; same_less = refl; same = Perm.rfl; size = omega arith })
  push_all-Filled (x ∷ l) pq v =
      let (first, e, p) = push-Pushed x pq v in
      let (next, f, r) = push_all-Filled l first p.inv in
      (
        next,
        push_all-cons x l pq first e f,
        record {
          inv = r.inv;
          same_less = r.same_less ∙ p.same_less;
          same =
              Perm.trans r.same (Perm.trans (Perm.append_left l p.same) (perm_middle l pq.items));
          size = omega (arith, r.size, p.size);
        },
      )

  new_priority_queue-Inv :
      (less : A → A → Bool) → StrictWeakOrder less → Inv (new_priority_queue less)
  unfolding new_priority_queue
  new_priority_queue-Inv less o = record { order = o; heap = λ d c p q. absurd (omega arith) }

  -- With a strict weak order, pushing items onto a new queue and popping as many never panics and
  -- returns the items in their order.
  pub pop_all-push_all :
      (less : A → A → Bool)
      → StrictWeakOrder less
      → (items : List A)
      → (l : List A) × ((push_all items (new_priority_queue less) >>= pop_all (length items))
          ≡ some l)
        × Rising less items l
  unfolding new_priority_queue
  pop_all-push_all less o items =
      let (pq, e, r) =
        push_all-Filled items (new_priority_queue less) (new_priority_queue-Inv less o) in
      let (l, f, s) = pop_all-Rising (length items) pq r.inv (omega (arith, r.size)) in
      (
        l,
        rw e f,
        record {
          sorted = subst (λ g. SortedBy g l) r.same_less s.sorted;
          same = Perm.trans s.same (subst (Perm pq.items) (append-nil items) r.same);
        },
      )
