-- ===== src/Collections/Lru/Cleanup.antt =====
-- What `Cleanup` does to the list of entries of an LRU cache.
use microservices_base.Prelude.{
  ℕ, ◌+◌, ◌-◌, ◌≤◌, ◌≡◌, refl, sym, ap, ◌∙◌, some, List, [], ◌∷◌, ◌++◌, inl, inr, arith, subst,
  if◌then◌else◌, length, Bool-cases, length-map,
}
use microservices_base.Prelude.Int.{ℤ}
use microservices_base.Prelude.Eq.{Comparable, ◌==◌, eq_of_==, ==_refl}
use microservices_base.Collections.Lru.{Entry, LruCache, unlink, is_expired, sweep, cleanup}
use microservices_base.Collections.Lru.Order.{entries, element_of, Distinct, not_head}
use microservices_base.Collections.Lru.Coherence.{IsCoherent, unlink-IsCoherent}
use microservices_base.Collections.Lru.Recency.{Inv, contents}
use microservices_base.Collections.Lru.Sweep.{Becomes}

module _ {ℓ} {K V : Type ℓ} ⦃eq : Comparable K⦄ where
  -- The entries that did not expire.
  unfoldable pub alive : ℤ → List (Entry K V) → List (Entry K V)
  alive now [] = []
  alive now (e ∷ l) = if is_expired now e then alive now l else e ∷ alive now l

  unfoldable living : ℤ → List (ℕ × Entry K V) → List (ℕ × Entry K V)
  living now [] = []
  living now ((el, e) ∷ o) = if is_expired now e then living now o else (el, e) ∷ living now o

  entries-living :
      (now : ℤ) (o : List (ℕ × Entry K V)) → entries (living now o) ≡ alive now (entries o)
  unfolding living alive
  entries-living now [] = refl
  entries-living now ((el, e) ∷ o) = elim (Bool-cases (is_expired now e)) [
    | inl old ↦ rw old (entries-living now o)
    | inr young ↦ rw young (ap (◌∷◌ e) (entries-living now o))
  ]

  append-cons :
      (pre : List (ℕ × Entry K V)) (x : ℕ × Entry K V) (post : List (ℕ × Entry K V))
      → pre ++ x ∷ post ≡ (pre ++ x ∷ []) ++ post
  append-cons [] x post = refl
  append-cons (y ∷ pre) x post = ap (◌∷◌ y) (append-cons pre x post)

  element_of-middle :
      (pre post : List (ℕ × Entry K V)) (el : ℕ) (e : Entry K V)
      → Distinct (pre ++ (el, e) ∷ post)
      → element_of e.key (pre ++ (el, e) ∷ post) ≡ some (el, e)
  unfolding element_of
  element_of-middle [] post el e d = rw (==_refl e.key) refl
  element_of-middle ((i, x) ∷ pre) post el e d =
      let ih = element_of-middle pre post el e d.2 in
      elim (Bool-cases (x.key == e.key)) [
        | inl same ↦ cc (d.1, ih, eq_of_== x.key e.key same)
        | inr other ↦ rw other ih
      ]

  unlink-middle :
      (pre post : List (ℕ × Entry K V)) (el : ℕ) (e : Entry K V)
      → Distinct (pre ++ (el, e) ∷ post)
      → unlink el (pre ++ (el, e) ∷ post) ≡ pre ++ post
  unfolding unlink
  unlink-middle [] post el e d = ground arith
  unlink-middle ((i, x) ∷ pre) post el e d =
      let below = element_of-middle pre post el e d.2 in
      rw (not_head e.key i x (pre ++ (el, e) ∷ post) d below)
        (ap (◌∷◌ (i, x)) (unlink-middle pre post el e d.2))

  -- What the loop of `Cleanup` makes of the part of the list that it has seen.
  record Sweeps (now : ℤ) (pre rest : List (ℕ × Entry K V)) (c : LruCache K V)
      (r : LruCache K V × ℕ) : Type ℓ where
    coherent : IsCoherent r.0.items r.0.order r.0.next_element
    limit : r.0.capacity ≡ c.capacity
    order : r.0.order ≡ pre ++ living now rest
    counted : r.1 + length (living now rest) ≡ length rest

  sweep-Sweeps :
      (now : ℤ) (pre rest : List (ℕ × Entry K V)) (c : LruCache K V)
      → IsCoherent c.items c.order c.next_element
      → c.order ≡ pre ++ rest
      → Sweeps now pre rest c (sweep now rest c)
  unfolding sweep living
  sweep-Sweeps now pre [] c h e = record { coherent = h; limit = refl; order = e; counted = refl }
  sweep-Sweeps now pre ((el, x) ∷ rest) c h e =
      let ih = sweep-Sweeps now (pre ++ (el, x) ∷ []) rest c h (e ∙ append-cons pre (el, x) rest) in
      let full = ih.order ∙ sym (append-cons pre (el, x) (living now rest)) in
      let distinct = subst Distinct full ih.coherent.distinct in
      elim (Bool-cases (is_expired now x)) [
        | inl old ↦
            let c' = (sweep now rest c).0 in
            let there =
              ap (element_of x.key) full ∙ element_of-middle pre (living now rest) el x distinct in
            rw old (record {
              coherent = unlink-IsCoherent c'.items c'.order c'.next_element el x ih.coherent there;
              limit = ih.limit;
              order =
                  rw old (ap (unlink el) full ∙ unlink-middle pre (living now rest) el x distinct);
              counted = rw old (omega (arith, ih.counted));
            })
        | inr young ↦ rw young (record {
          coherent = ih.coherent;
          limit = ih.limit;
          order = rw young full;
          counted = rw young (omega (arith, ih.counted));
        })
      ]

  length-living : (now : ℤ) (o : List (ℕ × Entry K V)) → length (living now o) ≤ length o
  unfolding living
  length-living now [] = omega arith
  length-living now ((el, e) ∷ o) = elim (Bool-cases (is_expired now e)) [
    | inl old ↦ rw old (omega (arith, length-living now o))
    | inr young ↦ rw young (omega (arith, length-living now o))
  ]

  -- What `Cleanup` does and answers.
  unfoldable pub Cleans : ℤ → LruCache K V → LruCache K V × ℕ → Type ℓ
  Cleans now c r =
      Becomes r.0 c.capacity (alive now (contents c))
      × (r.1 ≡ length (contents c) - length (alive now (contents c)))

  pub cleanup-Cleans : (now : ℤ) (c : LruCache K V) → Inv c → Cleans now c (cleanup now c)
  unfolding Cleans cleanup
  cleanup-Cleans now c v =
      let w = sweep-Sweeps now [] c.order c v.coherent refl in
      let same = entries-living now c.order in
      (
        record {
          keeps = record {
            coherent = w.coherent;
            bounded =
                omega (arith, ap length w.order, length-living now c.order, v.bounded, w.limit);
            positive = omega (arith, v.positive, w.limit);
            sized = refl;
          };
          limit = w.limit;
          holds = ap entries w.order ∙ same;
        },
        omega (
          arith,
          w.counted,
          length-map c.order (λ x. x.1),
          ap length same,
          length-map (living now c.order) (λ x. x.1),
        ),
      )
