-- ===== src/Collections/PQueue/Ops.antt =====
-- Push and Pop on a heap.
use mathlib.Core.List.{Perm, perm_middle, append-nil}
use mathlib.Core.List.Perm
use native.Mathlib.Omega.{arith}
use microservices_base.Prelude.{
  ℕ, zero, suc, ◌-◌, ◌<◌, ◌≡◌, refl, sym, subst, ◌∙◌, Bool, false, some, List, [], ◌∷◌, ◌++◌,
  length, length-append, length-take, take, get_or, ◌==◌, get_elem?,
}
use microservices_base.Prelude.Order.{StrictWeakOrder, All, all_nil, all_cons}
use microservices_base.Collections.PQueue.{PriorityQueue, push, pop, heap_pop, swap_at, down}
use microservices_base.Collections.PQueue.Array.{
  swapped, length-swapped, swapped_second, swapped_other, swap_at-swapped, get_elem?-get_or,
  get_or-take, take-concat, swapped-perm,
}
use microservices_base.Collections.PQueue.Order.{parent, Heap, Heap-root, Above-of_eq}
use microservices_base.Collections.PQueue.Up.{heap_push-Heaped}
use microservices_base.Collections.PQueue.Down.{down-Heaped}

concat-perm {ℓ} : {A : Type ℓ} (l : List A) (x : A) → Perm (l ++ x ∷ []) (x ∷ l)
concat-perm l x = rw (append-nil l) at (perm_middle {a = x} l [])

module _ {ℓ} {A : Type ℓ} (less : A → A → Bool) (d : A) (o : StrictWeakOrder less) where
  -- The root and a heap of the other elements.
  record Popped (h : List A) (x : A) (rest : List A) : Type ℓ where
    root : x ≡ get_or h 0 d
    heap : Heap less d (length rest) rest
    same : Perm (x ∷ rest) h
    size : suc (length rest) ≡ length h

  heap_pop-steps :
      (h g f : List A) (n : ℕ) {x : A}
      → length h - 1 ≡ n
      → swap_at h 0 n ≡ some g
      → down less g 0 n ≡ some f
      → get_elem? f n ≡ some x
      → heap_pop less h ≡ some (x, take n f)
  unfolding heap_pop
  heap_pop-steps h g f n e s t u = rw (e, s, t, u) refl

  heap_pop-Popped :
      (h : List A) (n : ℕ)
      → length h ≡ suc n
      → Heap less d (length h) h
      → (x : A) × (rest : List A) × (heap_pop less h ≡ some (x, rest)) × Popped h x rest
  heap_pop-Popped h n e v =
      let g = swapped d h 0 n in
      let size : length g ≡ suc n = length-swapped d h 0 n ∙ e in
      let lo : 0 < length h = omega arith in
      let hi : n < length h = omega arith in
      let last : length h - 1 ≡ n = omega arith in
      let (f, sunk, r) = down-Heaped less d o g n (omega arith) (λ c p q away.
        Above-of_eq less d h g (parent c) c (parent c) c
          (swapped_other d h 0 n lo hi (parent c) away (λ k. omega arith))
          (swapped_other d h 0 n lo hi c (λ k. omega arith) (λ k. omega arith))
          (v c p (omega arith))) in
      let x = get_or f n d in
      let found = get_elem?-get_or d f n (omega (arith, r.size)) in
      let rest = take n f in
      let short : length rest ≡ n = omega (arith, length-take n f, r.size) in
      (
        x,
        rest,
        heap_pop-steps h g f n last (swap_at-swapped d h 0 n lo hi) sunk found,
        record {
          root = r.rest n (omega arith) ∙ swapped_second d h 0 n lo hi;
          heap = λ c p q.
              Above-of_eq less d f rest (parent c) c (parent c) c
                (get_or-take d n f (parent c) (omega arith)) (get_or-take d n f c (omega arith))
                (r.heap c p (omega arith));
          same = Perm.trans (Perm.symm (concat-perm rest x)) (
              subst (λ l. Perm l h) (sym (take-concat d n f (r.size ∙ size)))
                (Perm.trans r.same (swapped-perm d h 0 n lo hi)));
          size = omega (arith, short);
        },
      )

module _ {ℓ} {A : Type ℓ} where
  get_or-default : (h : List A) (i : ℕ) (d e : A) → i < length h → get_or h i d ≡ get_or h i e
  get_or-default [] i d e lt = absurd (omega arith)
  get_or-default (x ∷ h) zero d e lt = refl
  get_or-default (x ∷ h) (suc i) d e lt = get_or-default h i d e (omega arith)

  Heap-default :
      (less : A → A → Bool) (h : List A) (d e : A)
      → Heap less d (length h) h
      → Heap less e (length h) h
  Heap-default less h d e v c p q =
      rw (get_or-default h c e d q, get_or-default h (parent c) e d (omega arith)) (v c p q)

  All-index :
      {P : A → Type 0} (l : List A) (d : A) → ((c : ℕ) → c < length l → P (get_or l c d)) → All P l
  All-index [] d f = all_nil
  All-index (x ∷ l) d f =
      all_cons (f 0 (omega arith)) (All-index l d (λ c lt. f (suc c) (omega arith)))

-- The items of a queue are a heap.
pub record Inv {ℓ} {A : Type ℓ} (pq : PriorityQueue A) : Type ℓ where
  pub order : StrictWeakOrder pq.less
  pub heap : (d : A) → Heap pq.less d (length pq.items) pq.items

module _ {ℓ} {A : Type ℓ} where
  first_of : (l : List A) {n : ℕ} → length l ≡ suc n → A
  first_of [] e = absurd (omega arith)
  first_of (x ∷ l) e = x

  -- The queue after a push.
  pub record Pushed (item : A) (pq next : PriorityQueue A) : Type ℓ where
    pub inv : Inv next
    pub same_less : next.less ≡ pq.less
    pub same : Perm next.items (item ∷ pq.items)
    pub size : length next.items ≡ suc (length pq.items)

  -- Push on a queue whose items are a heap gives such a queue, with one item more.
  pub push-Pushed :
      (item : A) (pq : PriorityQueue A)
      → Inv pq
      → (next : PriorityQueue A) × (push item pq ≡ some next) × Pushed item pq next
  unfolding push
  push-Pushed item pq v =
      let (g, e, r) = heap_push-Heaped pq.less item v.order pq.items item (v.heap item) in
      (
        record pq { items = g },
        rw (push, e) refl,
        record {
          inv = record {
            order = v.order;
            heap = λ d.
                Heap-default pq.less g item d
                  (subst (λ k. Heap pq.less item k g) (sym r.size) r.heap);
          };
          same_less = refl;
          same = Perm.trans r.same (concat-perm pq.items item);
          size = omega (arith, r.size, length-append pq.items (item ∷ []));
        },
      )

  -- The item and the queue that a pop returns.
  pub record Taken (pq : PriorityQueue A) (item : A) (next : PriorityQueue A) : Type ℓ where
    pub inv : Inv next
    pub same_less : next.less ≡ pq.less
    pub same : Perm (item ∷ next.items) pq.items
    pub size : suc (length next.items) ≡ length pq.items
    pub least : All (λ other. pq.less other item ≡ false) pq.items

  pop-steps :
      (pq : PriorityQueue A) {n : ℕ} {x : A} {rest : List A}
      → length pq.items ≡ suc n
      → heap_pop pq.less pq.items ≡ some (x, rest)
      → pop pq ≡ some (some x, record pq { items = rest })
  unfolding pop
  pop-steps pq e h =
      let some_left : (length pq.items == 0) ≡ false = ground arith in rw (pop, some_left, h) refl

  -- Pop on a queue with items, which are a heap, returns one than which no other is less, and the
  -- queue of the others.
  pub pop-Taken :
      (pq : PriorityQueue A) (n : ℕ)
      → Inv pq
      → length pq.items ≡ suc n
      → (item : A) × (next : PriorityQueue A) × (pop pq ≡ some (some item, next))
        × Taken pq item next
  pop-Taken pq n v e =
      let d = first_of pq.items e in
      let (x, rest, h, r) = heap_pop-Popped pq.less d v.order pq.items n e (v.heap d) in
      (
        x,
        record pq { items = rest },
        pop-steps pq e h,
        record {
          inv = record { order = v.order; heap = λ f. Heap-default pq.less rest d f r.heap };
          same_less = refl;
          same = r.same;
          size = r.size;
          least = All-index pq.items d (λ c lt.
              rw r.root
                (Heap-root pq.less d v.order pq.items (v.heap d) (suc c) c (omega arith) lt));
        },
      )
