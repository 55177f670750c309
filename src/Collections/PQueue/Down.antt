-- ===== src/Collections/PQueue/Down.antt =====
-- The loop `down`, after a pop.
use native.Mathlib.Omega.{arith}
use microservices_base.Prelude.{
  ℕ, zero, suc, ◌+◌, ◌*◌, ◌≤◌, ◌<◌, ◌≡◌, ◌≢◌, refl, sym, subst, ◌∙◌, inl, inr, Bool, true, false,
  Bool-cases, some, List, length, ltb, get_or, ltb→lt,
}
use microservices_base.Prelude.Eq.{comparable_nat, eq-cases}
use microservices_base.Prelude.Order.{StrictWeakOrder}
use microservices_base.Collections.PQueue.{lesser_child, down_loop, down}
use microservices_base.Collections.PQueue.Array.{
  swapped, length-swapped, swapped_first, swapped_second, swapped_other, swap_at-swapped,
  less_at-some,
}
use microservices_base.Collections.PQueue.Order.{
  parent, Above, Heap, DownInv, Above-of_eq, Heaped, unchanged, Heaped-swapped,
}

module _ {ℓ} {A : Type ℓ} (less : A → A → Bool) (d : A) (o : StrictWeakOrder less) where
  -- A child that the other child is not less than.
  record Least (n : ℕ) (h : List A) (i j : ℕ) : Type 0 where
    under : parent j ≡ i
    after : i < j
    inside : j < n
    least : (c : ℕ) → 0 < c → c < n → parent c ≡ i → Above less d h j c

  irreflexive : (x : A) → less x x ≡ false
  irreflexive x = elim (Bool-cases (less x x)) [
    | inl below ↦ o.asymmetric x x below
    | inr not_below ↦ not_below
  ]

  lesser_child-Least :
      (h : List A) (i n : ℕ)
      → 2 * i + 1 < n
      → n ≤ length h
      → (j : ℕ) × (lesser_child less h (2 * i + 1) n ≡ some j) × Least n h i j
  unfolding lesser_child
  lesser_child-Least h i n lt le =
      let l = 2 * i + 1 in
      elim (Bool-cases (ltb (l + 1) n)) [
        | inr alone ↦
            rw (lesser_child, alone)
              (
                l,
                refl,
                record {
                  under = omega arith;
                  after = omega arith;
                  inside = lt;
                  least = λ c p q e.
                      let only : c ≡ l = ground arith in rw only (irreflexive (get_or h l d));
                },
              )
        | inl two ↦
            let second : l + 1 < n = ltb→lt (l + 1) n two in
            let test = less_at-some d h (l + 1) l (omega arith) (omega arith) less in
            elim (Bool-cases (less (get_or h (l + 1) d) (get_or h l d))) [
              | inl right ↦
                  rw (lesser_child, two, test, right)
                    (
                      l + 1,
                      refl,
                      record {
                        under = omega arith;
                        after = omega arith;
                        inside = second;
                        least = λ c p q e. elim (eq-cases c l) [
                          | inl at_left ↦
                              rw at_left (o.asymmetric (get_or h (l + 1) d) (get_or h l d) right)
                          | inr other ↦
                              let at_right : c ≡ l + 1 = omega arith in
                              rw at_right (irreflexive (get_or h (l + 1) d))
                        ];
                      },
                    )
              | inr left ↦
                  rw (lesser_child, two, test, left)
                    (
                      l,
                      refl,
                      record {
                        under = omega arith;
                        after = omega arith;
                        inside = lt;
                        least = λ c p q e. elim (eq-cases c l) [
                          | inl at_left ↦ rw at_left (irreflexive (get_or h l d))
                          | inr other ↦ let at_right : c ≡ l + 1 = omega arith in rw at_right left
                        ];
                      },
                    )
            ]
      ]

  -- One swap with the lesser child.
  module _ {n : ℕ} (h : List A) (i j : ℕ) (v : DownInv less d n h i) (m : Least n h i j)
      (below : less (get_or h j d) (get_or h i d) ≡ true) where
    hi : i < length h
    hi = omega (arith, v.inside, v.within)

    hj : j < length h
    hj = omega (arith, m.inside, v.within)

    apart : i ≢ j
    apart e = omega (arith, m.after)

    sunk :
        (p c p' c' : ℕ)
        → get_or (swapped d h i j) p d ≡ get_or h p' d
        → get_or (swapped d h i j) c d ≡ get_or h c' d
        → Above less d h p' c'
        → Above less d (swapped d h i j) p c
    sunk p c p' c' = Above-of_eq less d h (swapped d h i j) p c p' c'

    other : (c : ℕ) → c ≢ i → c ≢ j → get_or (swapped d h i j) c d ≡ get_or h c d
    other = swapped_other d h i j hi hj

    first : get_or (swapped d h i j) i d ≡ get_or h j d
    first = swapped_first d h i j hi hj apart

    second : get_or (swapped d h i j) j d ≡ get_or h i d
    second = swapped_second d h i j hi hj

    sunk_edges :
        (c : ℕ) → 0 < c → c < n → parent c ≢ j → Above less d (swapped d h i j) (parent c) c
    sunk_edges c p q away = elim (eq-cases c j) [
      | inl at_j ↦
          rw (at_j, m.under)
            (sunk i j j i first second (o.asymmetric (get_or h j d) (get_or h i d) below))
      | inr not_j ↦ elim (eq-cases (parent c) i) [
        | inl under ↦
            rw under (sunk i c j c first (other c (λ e. omega arith) not_j) (m.least c p q under))
        | inr not_under ↦ elim (eq-cases c i) [
          | inl at_i ↦ rw at_i (
              sunk (parent i) i (parent i) j
                (other (parent i) (λ e. omega arith) (λ e. omega (arith, m.after))) first
                (v.bridged j (omega (arith, m.after)) m.inside m.under (omega arith)))
          | inr not_i ↦
              sunk (parent c) c (parent c) c (other (parent c) not_under away) (other c not_i not_j)
                (v.edges c p q not_under)
        ]
      ]
    ]

    sunk_bridged :
        (c : ℕ) → 0 < c → c < n → parent c ≡ j → 0 < j → Above less d (swapped d h i j) (parent j) c
    sunk_bridged c p q e r = rw m.under (
        sunk i c j c first (other c (λ k. omega (arith, m.after)) (λ k. omega arith))
          (subst (λ k. Above less d h k c) e (v.edges c p q (λ k. apart (sym k ∙ e)))))

    swapped-DownInv : DownInv less d n (swapped d h i j) j
    swapped-DownInv = record {
      inside = m.inside;
      within = omega (arith, length-swapped d h i j, v.within);
      edges = sunk_edges;
      bridged = sunk_bridged;
    }

  leaf-Heap : (n : ℕ) (h : List A) (i : ℕ) → DownInv less d n h i → n ≤ 2 * i + 1 → Heap less d n h
  leaf-Heap n h i v leaf c p q = v.edges c p q (λ e. omega arith)

  settled-Heap :
      (n : ℕ) (h : List A) (i j : ℕ)
      → DownInv less d n h i
      → Least n h i j
      → less (get_or h j d) (get_or h i d) ≡ false
      → Heap less d n h
  settled-Heap n h i j v m not_below c p q = elim (eq-cases (parent c) i) [
    | inl under ↦ rw under (
        o.neg_transitive (get_or h c d) (get_or h j d) (get_or h i d) (m.least c p q under)
          not_below)
    | inr away ↦ v.edges c p q away
  ]

  down_loop-Heaped :
      (k : ℕ) (h : List A) (i n : ℕ)
      → n < i + k
      → DownInv less d n h i
      → (g : List A) × (down_loop less k h i n ≡ some g) × Heaped less d n h g
  unfolding down_loop
  down_loop-Heaped zero h i n lt v = absurd (omega (arith, v.inside))
  down_loop-Heaped (suc k) h i n lt v = elim (Bool-cases (ltb (2 * i + 1) n)) [
    | inr leaf ↦
        rw (down_loop, leaf) (h, refl, unchanged less d h (leaf-Heap n h i v (ground arith)))
    | inl child ↦
        let (j, at_j, m) = lesser_child-Least h i n (ltb→lt (2 * i + 1) n child) v.within in
        let lo : i < length h = omega (arith, v.inside, v.within) in
        let hi : j < length h = omega (arith, m.inside, v.within) in
        let test = less_at-some d h j i hi lo less in
        elim (Bool-cases (less (get_or h j d) (get_or h i d))) [
          | inl below ↦
              let (g, e, r) =
                down_loop-Heaped k (swapped d h i j) j n (omega (arith, m.after))
                  (swapped-DownInv h i j v m below) in
              rw (down_loop, child, at_j, test, below, swap_at-swapped d h i j lo hi)
                (g, e, Heaped-swapped less d h i j v.inside m.inside v.within r)
          | inr not_below ↦
              rw (down_loop, child, at_j, test, not_below)
                (h, refl, unchanged less d h (settled-Heap n h i j v m not_below))
        ]
  ]

  -- `down` from the root makes a heap of the first `n` elements, of which only the root was out of
  -- place.
  pub down-Heaped :
      (h : List A) (n : ℕ)
      → n ≤ length h
      → ((c : ℕ) → 0 < c → c < n → parent c ≢ 0 → Above less d h (parent c) c)
      → (g : List A) × (down less h 0 n ≡ some g) × Heaped less d n h g
  unfolding down down_loop
  down-Heaped h zero le v = (h, refl, unchanged less d h (λ c p q. absurd (omega arith)))
  down-Heaped h (suc n) le v = down_loop-Heaped (suc (suc n)) h 0 (suc n) (omega arith) (record {
    inside = omega arith;
    within = le;
    edges = v;
    bridged = λ c p q e r. absurd (omega arith);
  })
