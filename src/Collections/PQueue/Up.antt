-- ===== src/Collections/PQueue/Up.antt =====
-- The loop `up`, after a push.
use native.Mathlib.Omega.{arith}
use microservices_base.Prelude.{
  ℕ, zero, suc, ◌<◌, ◌≡◌, ◌≢◌, refl, subst, inl, inr, Bool, true, false, Bool-cases, some, List, [],
  ◌∷◌, ◌++◌, length, length-append, ◌==◌, get_or,
}
use microservices_base.Prelude.Eq.{comparable_nat, eq-cases}
use microservices_base.Prelude.Order.{StrictWeakOrder}
use microservices_base.Collections.PQueue.{up_loop, up, heap_push}
use microservices_base.Collections.PQueue.Array.{
  swapped, length-swapped, swapped_first, swapped_second, swapped_other, swap_at-swapped,
  less_at-some, get_or-append,
}
use microservices_base.Collections.PQueue.Order.{
  parent, Above, Heap, UpInv, Above-of_eq, Heaped, unchanged, Heaped-swapped,
}

module _ {ℓ} {A : Type ℓ} (less : A → A → Bool) (d : A) (o : StrictWeakOrder less) where
  -- One swap with the parent.
  module _ (h : List A) (j : ℕ) (v : UpInv less d h j) (pos : 0 < j)
      (below : less (get_or h j d) (get_or h (parent j) d) ≡ true) where
    at_parent : parent j < length h
    at_parent = omega (arith, v.inside)

    apart : parent j ≢ j
    apart e = omega arith

    first : get_or (swapped d h (parent j) j) (parent j) d ≡ get_or h j d
    first = swapped_first d h (parent j) j at_parent v.inside apart

    second : get_or (swapped d h (parent j) j) j d ≡ get_or h (parent j) d
    second = swapped_second d h (parent j) j at_parent v.inside

    other : (c : ℕ) → c ≢ parent j → c ≢ j → get_or (swapped d h (parent j) j) c d ≡ get_or h c d
    other = swapped_other d h (parent j) j at_parent v.inside

    settled : less (get_or h (parent j) d) (get_or h j d) ≡ false
    settled = o.asymmetric (get_or h j d) (get_or h (parent j) d) below

    risen :
        (p c p' c' : ℕ)
        → get_or (swapped d h (parent j) j) p d ≡ get_or h p' d
        → get_or (swapped d h (parent j) j) c d ≡ get_or h c' d
        → Above less d h p' c'
        → Above less d (swapped d h (parent j) j) p c
    risen p c p' c' = Above-of_eq less d h (swapped d h (parent j) j) p c p' c'

    risen_edges :
        (c : ℕ)
        → 0 < c
        → c < length h
        → c ≢ parent j
        → Above less d (swapped d h (parent j) j) (parent c) c
    risen_edges c p q n = elim (eq-cases c j) [
      | inl at_j ↦ rw at_j (risen (parent j) j j (parent j) first second settled)
      | inr not_j ↦ elim (eq-cases (parent c) j) [
        | inl under ↦
            rw under (risen j c (parent j) c second (other c n not_j) (v.bridged c p q under pos))
        | inr not_under ↦ elim (eq-cases (parent c) (parent j)) [
          | inl beside ↦ rw beside (
              risen (parent j) c j c first (other c n not_j) (
                o.neg_transitive (get_or h c d) (get_or h (parent j) d) (get_or h j d)
                  (subst (λ k. Above less d h k c) beside (v.edges c p q not_j)) settled))
          | inr away ↦
              risen (parent c) c (parent c) c (other (parent c) away not_under) (other c n not_j)
                (v.edges c p q not_j)
        ]
      ]
    ]

    risen_bridged :
        (c : ℕ)
        → 0 < c
        → c < length h
        → parent c ≡ parent j
        → 0 < parent j
        → Above less d (swapped d h (parent j) j) (parent (parent j)) c
    risen_bridged c p q e r =
        let top : Above less d h (parent (parent j)) (parent j) =
          v.edges (parent j) r at_parent apart in
        let above = other (parent (parent j)) (λ k. omega arith) (λ k. omega arith) in
        elim (eq-cases c j) [
          | inl at_j ↦
              rw at_j (risen (parent (parent j)) j (parent (parent j)) (parent j) above second top)
          | inr not_j ↦
              risen (parent (parent j)) c (parent (parent j)) c above
                (other c (λ k. omega arith) not_j)
                (o.neg_transitive (get_or h c d) (get_or h (parent j) d)
                  (get_or h (parent (parent j)) d)
                  (subst (λ k. Above less d h k c) e (v.edges c p q not_j)) top)
        ]

    swapped-UpInv : UpInv less d (swapped d h (parent j) j) (parent j)
    swapped-UpInv =
        let size = length-swapped d h (parent j) j in
        record {
          inside = omega (arith, size, at_parent);
          edges = λ c p q. risen_edges c p (omega (arith, size));
          bridged = λ c p q. risen_bridged c p (omega (arith, size));
        }

  root-Heap : (h : List A) (j : ℕ) → UpInv less d h j → j ≡ 0 → Heap less d (length h) h
  root-Heap h j v at_root c p q = v.edges c p q (λ e. omega arith)

  settled-Heap :
      (h : List A) (j : ℕ)
      → UpInv less d h j
      → Above less d h (parent j) j
      → Heap less d (length h) h
  settled-Heap h j v above c p q = elim (eq-cases c j) [
    | inl at_j ↦ rw at_j above
    | inr other ↦ v.edges c p q other
  ]

  up_loop-Heaped :
      (k : ℕ) (h : List A) (j : ℕ)
      → j < k
      → UpInv less d h j
      → (g : List A) × (up_loop less k h j ≡ some g) × Heaped less d (length h) h g
  unfolding up_loop
  up_loop-Heaped zero h j lt v = absurd (omega arith)
  up_loop-Heaped (suc k) h j lt v = elim (Bool-cases (parent j == j)) [
    | inl at_root ↦
        rw (up_loop, at_root) (h, refl, unchanged less d h (root-Heap h j v (ground arith)))
    | inr lower ↦
        let at_parent : parent j < length h = omega (arith, v.inside) in
        elim (Bool-cases (less (get_or h j d) (get_or h (parent j) d))) [
          | inl below ↦
              let pos : 0 < j = ground arith in
              let (g, e, r) =
                up_loop-Heaped k (swapped d h (parent j) j) (parent j) (omega arith)
                  (swapped-UpInv h j v pos below) in
              rw
                (
                  up_loop,
                  lower,
                  less_at-some d h j (parent j) v.inside at_parent less,
                  below,
                  swap_at-swapped d h (parent j) j at_parent v.inside,
                )
                (
                  g,
                  e,
                  Heaped-swapped less d h (parent j) j at_parent v.inside (omega arith) (
                      subst (λ n. Heaped less d n (swapped d h (parent j) j) g)
                        (length-swapped d h (parent j) j) r),
                )
          | inr not_below ↦
              rw (up_loop, lower, less_at-some d h j (parent j) v.inside at_parent less, not_below)
                (h, refl, unchanged less d h (settled-Heap h j v not_below))
        ]
  ]

  push-UpInv :
      (h : List A) (x : A) → Heap less d (length h) h → UpInv less d (h ++ x ∷ []) (length h)
  push-UpInv h x v =
      let size = length-append h (x ∷ []) in
      record {
        inside = omega (arith, size);
        edges = λ c p q n.
            Above-of_eq less d h (h ++ x ∷ []) (parent c) c (parent c) c
              (get_or-append d h (x ∷ []) (parent c) (omega (arith, size)))
              (get_or-append d h (x ∷ []) c (omega (arith, size))) (v c p (omega (arith, size)));
        bridged = λ c p q e r. absurd (omega (arith, size));
      }

  -- heap.Push on a heap gives a heap of its elements and the new one.
  pub heap_push-Heaped :
      (h : List A) (x : A)
      → Heap less d (length h) h
      → (g : List A) × (heap_push less h x ≡ some g)
        × Heaped less d (length (h ++ x ∷ [])) (h ++ x ∷ []) g
  unfolding heap_push up
  heap_push-Heaped h x v =
      up_loop-Heaped (suc (length h)) (h ++ x ∷ []) (length h) (omega arith) (push-UpInv h x v)
