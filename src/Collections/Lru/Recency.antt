-- ===== src/Collections/Lru/Recency.antt =====
-- An LRU cache is a list of entries, the most recently used first: what `Get` and `Remove` do to it.
use microservices_base.Prelude.{
  ℕ, ◌≤◌, ◌<◌, ◌≡◌, refl, sym, ap, Option, none, some, List, [], ◌∷◌, inl, inr, arith, subst,
  if◌then◌else◌, length, Bool-cases,
}
use microservices_base.Prelude.Int.{ℤ}
use microservices_base.Prelude.Eq.{Comparable, ◌==◌}
use microservices_base.Collections.Lru.{
  Entry, LruCache, remove_element, touch, is_expired, get, get_found, expire, miss, hit,
}
use microservices_base.Collections.Lru.Order.{
  entries, drop_key, element_of, element_of_key, entry_at-element_of, entries-unlink, length-unlink,
}
use microservices_base.Collections.Lru.Coherence.{
  IsCoherent, find-eq, unlink-IsCoherent, touch-IsCoherent,
}

module _ {ℓ} {K V : Type ℓ} ⦃eq : Comparable K⦄ where
  -- What holds of a cache between two methods.
  pub record Inv (c : LruCache K V) : Type ℓ where
    pub coherent : IsCoherent c.items c.order c.next_element
    pub bounded : length c.order ≤ c.capacity
    pub positive : 0 < c.capacity
    pub sized : c.stats.size ≡ length c.order

  -- The entry that a list has for a key.
  unfoldable pub entry_of : K → List (Entry K V) → Option (Entry K V)
  entry_of k [] = none
  entry_of k (e ∷ l) = if e.key == k then some e else entry_of k l

  abbrev pub read_found :
      ℤ → K → Option (Entry K V) → List (Entry K V) → List (Entry K V) × Option V
  read_found now k none l = (l, none)
  read_found now k (some e) l =
      if is_expired now e then (drop_key k l, none) else (e ∷ drop_key k l, some e.value)

  -- A read of the list: an entry that expired is dropped, any other is moved to the front.
  abbrev pub read : ℤ → K → List (Entry K V) → List (Entry K V) × Option V
  read now k l = read_found now k (entry_of k l) l

  abbrev pub contents : LruCache K V → List (Entry K V)
  contents c = entries c.order

  pub entry_of-entries :
      (k : K) (o : List (ℕ × Entry K V)) {el : ℕ} {e : Entry K V}
      → element_of k o ≡ some (el, e)
      → entry_of k (entries o) ≡ some e
  unfolding entry_of element_of
  entry_of-entries k [] h = cc
  entry_of-entries k ((i, x) ∷ o) h = elim (Bool-cases (x.key == k)) [
    | inl same ↦ ground (arith, rw same at h, same)
    | inr other ↦ rw other (entry_of-entries k o (rw other at h))
  ]

  pub entry_of-entries_none :
      (k : K) (o : List (ℕ × Entry K V)) → element_of k o ≡ none → entry_of k (entries o) ≡ none
  unfolding entry_of element_of
  entry_of-entries_none k [] h = refl
  entry_of-entries_none k ((i, x) ∷ o) h = elim (Bool-cases (x.key == k)) [
    | inl same ↦ cc (rw same at h)
    | inr other ↦ rw other (entry_of-entries_none k o (rw other at h))
  ]

  -- An element found by its key, for the key of its entry.
  pub element_of_own :
      (k : K) (o : List (ℕ × Entry K V)) {el : ℕ} {e : Entry K V}
      → element_of k o ≡ some (el, e)
      → element_of e.key o ≡ some (el, e)
  element_of_own k o {el} {e} h =
      subst (λ x. element_of x o ≡ some (el, e)) (sym (element_of_key k o h)) h

  pub remove_element-Inv :
      (c : LruCache K V) (el : ℕ) (e : Entry K V)
      → Inv c
      → element_of e.key c.order ≡ some (el, e)
      → Inv (remove_element el e c)
  unfolding remove_element
  remove_element-Inv c el e v there =
      let shorter =
        length-unlink el c.order (entry_at-element_of e.key c.order v.coherent.distinct there) in
      record {
        coherent = unlink-IsCoherent c.items c.order c.next_element el e v.coherent there;
        bounded = omega arith;
        positive = v.positive;
        sized = refl;
      }

  expire-Inv :
      (c : LruCache K V) (el : ℕ) (e : Entry K V)
      → Inv c
      → element_of e.key c.order ≡ some (el, e)
      → Inv (expire el e c)
  unfolding expire
  expire-Inv c el e v there =
      let w = remove_element-Inv c el e v there in
      record { coherent = w.coherent; bounded = w.bounded; positive = w.positive; sized = w.sized }

  pub touch-Inv :
      (c : LruCache K V) (el : ℕ) (e old : Entry K V)
      → Inv c
      → element_of e.key c.order ≡ some (el, old)
      → Inv (touch el e c)
  unfolding touch
  touch-Inv c el e old v there =
      let shorter =
        length-unlink el c.order (entry_at-element_of e.key c.order v.coherent.distinct there) in
      record {
        coherent = touch-IsCoherent c.items c.order c.next_element el e old v.coherent there;
        bounded = omega arith;
        positive = v.positive;
        sized = omega arith;
      }

  hit-Inv :
      (c : LruCache K V) (el : ℕ) (e : Entry K V)
      → Inv c
      → element_of e.key c.order ≡ some (el, e)
      → Inv (hit (touch el e c))
  unfolding hit
  hit-Inv c el e v there =
      let w = touch-Inv c el e e v there in
      record { coherent = w.coherent; bounded = w.bounded; positive = w.positive; sized = w.sized }

  -- What `Get` does, and gives, is the read of the list of entries; and it keeps the invariant.
  pub record Reads (now : ℤ) (k : K) (c c' : LruCache K V) (found : Option V) : Type ℓ where
    pub keeps : Inv c'
    pub reads : (contents c', found) ≡ read now k (contents c)
    pub limit : c'.capacity ≡ c.capacity

  get_found-Reads :
      (now : ℤ) (k : K) (c : LruCache K V) (found : Option (ℕ × Entry K V))
      → element_of k c.order ≡ found
      → Inv c
      → Reads now k c (get_found now found c).0 (get_found now found c).1
  unfolding get_found miss
  get_found-Reads now k c none absent v = record {
    keeps = record {
      coherent = v.coherent;
      bounded = v.bounded;
      positive = v.positive;
      sized = v.sized;
    };
    reads = rw (entry_of-entries_none k c.order absent);
    limit = refl;
  }
  get_found-Reads now k c (some (el, e)) there v =
      let own = element_of_own k c.order there in
      let listed = entry_of-entries k c.order there in
      let dropped = entries-unlink k c.order v.coherent.distinct there in
      elim (Bool-cases (is_expired now e)) [
        | inl old ↦ rw old (record {
          keeps = expire-Inv c el e v own;
          reads = rw (listed, old) (ap (λ l. (l, none)) (unfold expire remove_element in dropped));
          limit = unfold expire remove_element in refl;
        })
        | inr young ↦ rw young (record {
          keeps = hit-Inv c el e v own;
          reads =
              rw (listed, young) (ap (λ l. (e ∷ l, some e.value)) (unfold hit touch in dropped));
          limit = unfold hit touch in refl;
        })
      ]

  -- `Get` on a cache is the read of its list of entries: it returns the stored value and makes the
  -- entry the most recent, or drops an expired entry, or misses; and it keeps the invariant, with
  -- which the map and the list agree.
  pub get-Reads :
      (now : ℤ) (k : K) (c : LruCache K V) → Inv c → Reads now k c (get now k c).0 (get now k c).1
  unfolding get
  get-Reads now k c v =
      let e = find-eq c k v.coherent in
      subst (λ found. Reads now k c (get_found now found c).0 (get_found now found c).1) (sym e)
        (get_found-Reads now k c (element_of k c.order) refl v)
