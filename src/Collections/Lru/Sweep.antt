-- ===== src/Collections/Lru/Sweep.antt =====
-- What `Remove`, `Clear` and `Resize` do to the list of entries of an LRU cache.
use microservices_base.Prelude.{
  ℕ, zero, suc, ◌≤◌, ◌<◌, ◌≡◌, refl, sym, ap, ap₂, ◌∙◌, Bool, true, false, Option, none, some, List,
  [], ◌∷◌, inl, inr, arith, subst, length, Bool-cases, ltb, take, length-map, take_whole,
}
use microservices_base.Prelude.Int.{ℤ, pos, negsuc}
use microservices_base.Prelude.Eq.{Comparable, ◌==◌}
use microservices_base.Prelude.Assoc.{lookup}
use microservices_base.Collections.Lru.{
  Entry, LruCache, remove_element, remove_key, remove_found, evict_oldest, evict_down, resize,
  clear, at_least_one, entry_at,
}
use microservices_base.Collections.Lru.Order.{drop_key, drop_last, element_of, entries-unlink}
use microservices_base.Collections.Lru.Coherence.{IsCoherent, find-eq}
use microservices_base.Collections.Lru.Recency.{
  Inv, contents, remove_element-Inv, element_of_own, entry_of, entry_of-entries,
  entry_of-entries_none,
}
use microservices_base.Collections.Lru.Store.{evict_oldest-Evicts}

pub at_least_one-pos : (n : ℤ) → 0 < at_least_one n
at_least_one-pos (pos zero) = omega arith
at_least_one-pos (pos (suc n)) = ground arith
at_least_one-pos (negsuc n) = ground arith

abbrev pub is_there {ℓ} : {A : Type ℓ} → Option A → Bool
is_there none = false
is_there (some x) = true

module _ {ℓ} {K V : Type ℓ} ⦃eq : Comparable K⦄ where
  take_of_drop_last :
      (n : ℕ) (l : List (Entry K V)) → n < length l → take n (drop_last l) ≡ take n l
  unfolding drop_last
  take_of_drop_last n [] h = absurd (omega arith)
  take_of_drop_last zero l h = refl
  take_of_drop_last (suc n) (e ∷ []) h = absurd (omega arith)
  take_of_drop_last (suc n) (e ∷ d ∷ l) h = ap (◌∷◌ e) (take_of_drop_last n (d ∷ l) (omega arith))

  -- What the loop of `Resize` makes of a cache.
  record Shrinks (c c' : LruCache K V) : Type ℓ where
    coherent : IsCoherent c'.items c'.order c'.next_element
    bounded : length c'.order ≤ c.capacity
    sized : c'.stats.size ≡ length c'.order
    limit : c'.capacity ≡ c.capacity
    rest : contents c' ≡ take c.capacity (contents c)

  fitting-Shrinks :
      (c : LruCache K V)
      → IsCoherent c.items c.order c.next_element
      → c.stats.size ≡ length c.order
      → length c.order ≤ c.capacity
      → Shrinks c c
  fitting-Shrinks c h s fits = record {
    coherent = h;
    bounded = fits;
    sized = s;
    limit = refl;
    rest = sym (take_whole c.capacity (contents c) (omega (arith, length-map c.order (λ x. x.1))));
  }

  evict_down-Shrinks :
      (rounds : ℕ) (c : LruCache K V)
      → IsCoherent c.items c.order c.next_element
      → c.stats.size ≡ length c.order
      → length c.order ≤ rounds
      → Shrinks c (evict_down rounds c)
  unfolding evict_down
  evict_down-Shrinks zero c h s enough = fitting-Shrinks c h s (omega arith)
  evict_down-Shrinks (suc rounds) c h s enough =
      elim (Bool-cases (ltb c.capacity (length c.order))) [
        | inl over ↦
            let more : c.capacity < length c.order = ground arith in
            let w = evict_oldest-Evicts c h (omega arith) in
            let next =
              evict_down-Shrinks rounds (evict_oldest c) w.coherent w.sized
                (omega (arith, w.shorter)) in
            let long : c.capacity < length (contents c) =
              omega (arith, length-map c.order (λ x. x.1)) in
            rw over (record {
              coherent = next.coherent;
              bounded = omega (arith, next.bounded, w.limit);
              sized = next.sized;
              limit = next.limit ∙ w.limit;
              rest =
                  next.rest
                  ∙ ap₂ take w.limit w.rest
                  ∙ take_of_drop_last c.capacity (contents c) long;
            })
        | inr fits ↦ rw fits (fitting-Shrinks c h s (ground arith))
      ]

  -- What a change of a cache keeps, and what it makes of the list of entries.
  pub record Becomes (c' : LruCache K V) (capacity : ℕ) (l : List (Entry K V)) : Type ℓ where
    pub keeps : Inv c'
    pub limit : c'.capacity ≡ capacity
    pub holds : contents c' ≡ l

  pub resize-Becomes :
      (n : ℤ) (c : LruCache K V)
      → Inv c
      → Becomes (resize n c) (at_least_one n) (take (at_least_one n) (contents c))
  unfolding resize
  resize-Becomes n c v =
      let start = record c {
        capacity = at_least_one n;
        stats = record c.stats { capacity = at_least_one n };
      } in
      let w = evict_down-Shrinks (length c.order) start v.coherent v.sized (omega arith) in
      record {
        keeps = record {
          coherent = w.coherent;
          bounded = omega (arith, w.bounded, w.limit);
          positive = omega (arith, w.limit, at_least_one-pos n);
          sized = w.sized;
        };
        limit = w.limit;
        holds = w.rest;
      }

  pub clear-Becomes : (c : LruCache K V) → Inv c → Becomes (clear c) c.capacity []
  unfolding clear element_of entry_at lookup
  clear-Becomes c v = record {
    keeps = record {
      coherent = record { index = λ k. refl; distinct = tt; fresh = λ i n. refl };
      bounded = omega arith;
      positive = v.positive;
      sized = refl;
    };
    limit = refl;
    holds = refl;
  }

  drop_key-none : (k : K) (l : List (Entry K V)) → entry_of k l ≡ none → drop_key k l ≡ l
  unfolding drop_key entry_of
  drop_key-none k [] h = refl
  drop_key-none k (e ∷ l) h = elim (Bool-cases (e.key == k)) [
    | inl same ↦ cc (rw same at h)
    | inr other ↦ rw other (ap (◌∷◌ e) (drop_key-none k l (rw other at h)))
  ]

  -- What `Remove` does and answers.
  unfoldable pub Removes : K → LruCache K V → LruCache K V × Bool → Type ℓ
  Removes k c r =
      Becomes r.0 c.capacity (drop_key k (contents c)) × (r.1 ≡ is_there (entry_of k (contents c)))

  remove_found-Removes :
      (k : K) (c : LruCache K V) (found : Option (ℕ × Entry K V))
      → element_of k c.order ≡ found
      → Inv c
      → Removes k c (remove_found found c)
  unfolding Removes remove_found
  remove_found-Removes k c none absent v =
      let unlisted = entry_of-entries_none k c.order absent in
      (
        record { keeps = v; limit = refl; holds = sym (drop_key-none k (contents c) unlisted) },
        rw unlisted refl,
      )
  remove_found-Removes k c (some (el, e)) there v =
      let own = element_of_own k c.order there in
      (
        record {
          keeps = remove_element-Inv c el e v own;
          limit = unfold remove_element in refl;
          holds = unfold remove_element in (entries-unlink k c.order v.coherent.distinct there);
        },
        rw (entry_of-entries k c.order there) refl,
      )

  pub remove_key-Removes : (k : K) (c : LruCache K V) → Inv c → Removes k c (remove_key k c)
  unfolding remove_key
  remove_key-Removes k c v =
      subst (λ found. Removes k c (remove_found found c)) (sym (find-eq c k v.coherent))
        (remove_found-Removes k c (element_of k c.order) refl v)
