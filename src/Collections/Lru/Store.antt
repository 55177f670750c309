-- ===== src/Collections/Lru/Store.antt =====
-- What `PutWithTTL` does to the list of entries of an LRU cache.
use microservices_base.Prelude.{
  ℕ, zero, suc, ◌+◌, ◌≤◌, ◌<◌, ◌≡◌, refl, sym, ap, ◌∙◌, Option, none, some, List, [], ◌∷◌, inl, inr,
  arith, subst, length, Bool-cases, leb, take, length-map, take_whole,
}
use microservices_base.Prelude.Int.{ℤ}
use microservices_base.Prelude.Eq.{Comparable, ◌==◌}
use microservices_base.Collections.Lru.{
  Entry, LruCache, unlink, back, remove_element, touch, expiry, evict_oldest, make_room, push_front,
  put_found, put_with_ttl,
}
use microservices_base.Collections.Lru.Order.{
  entries, drop_key, drop_last, element_of, entry_at-element_of, entries-unlink, length-unlink,
  element_of-unlink-none, element_of-back, back-some, entries-unlink-back,
}
use microservices_base.Collections.Lru.Coherence.{
  IsCoherent, find-eq, unlink-IsCoherent, push-IsCoherent,
}
use microservices_base.Collections.Lru.Recency.{Inv, contents, touch-Inv}

module _ {ℓ} {K V : Type ℓ} ⦃eq : Comparable K⦄ where
  -- A write to the list of at most `capacity` entries: the entry goes to the front, in the place of
  -- the one with its key or, if there is none and the list is full, of the least recent one.
  abbrev pub store : ℕ → Entry K V → List (Entry K V) → List (Entry K V)
  store capacity e l = take capacity (e ∷ drop_key e.key l)

  take-drop_last : (n : ℕ) (l : List (Entry K V)) → length l ≡ suc n → take n l ≡ drop_last l
  unfolding drop_last
  take-drop_last n [] h = absurd (omega arith)
  take-drop_last zero (e ∷ []) h = refl
  take-drop_last zero (e ∷ d ∷ l) h = absurd (omega arith)
  take-drop_last (suc n) (e ∷ []) h = absurd (omega arith)
  take-drop_last (suc n) (e ∷ d ∷ l) h = ap (◌∷◌ e) (take-drop_last n (d ∷ l) (omega arith))

  drop_key_absent :
      (k : K) (o : List (ℕ × Entry K V))
      → element_of k o ≡ none
      → drop_key k (entries o) ≡ entries o
  unfolding drop_key element_of
  drop_key_absent k [] h = refl
  drop_key_absent k ((i, x) ∷ o) h = elim (Bool-cases (x.key == k)) [
    | inl same ↦ cc (rw same at h)
    | inr other ↦ rw other (ap (◌∷◌ x) (drop_key_absent k o (rw other at h)))
  ]

  length-entries : (o : List (ℕ × Entry K V)) → length (entries o) ≡ length o
  length-entries o = length-map o (λ x. x.1)

  -- What an eviction leaves of a cache that is not empty.
  pub record Evicts (c c' : LruCache K V) : Type ℓ where
    pub coherent : IsCoherent c'.items c'.order c'.next_element
    pub shorter : length c'.order + 1 ≡ length c.order
    pub sized : c'.stats.size ≡ length c'.order
    pub rest : contents c' ≡ drop_last (contents c)
    pub limit : c'.capacity ≡ c.capacity
    pub absent : (k : K) → element_of k c.order ≡ none → element_of k c'.order ≡ none

  pub evict_oldest-Evicts :
      (c : LruCache K V)
      → IsCoherent c.items c.order c.next_element
      → 0 < length c.order
      → Evicts c (evict_oldest c)
  unfolding evict_oldest
  evict_oldest-Evicts c h busy =
      let (el, e, last) = last_of c.order busy in
      let there = element_of-back c.order h.distinct last in
      rw (evict_oldest, last)
        (record {
          coherent = unlink-IsCoherent c.items c.order c.next_element el e h there;
          shorter = length-unlink el c.order (entry_at-element_of e.key c.order h.distinct there);
          sized = unfold remove_element in refl;
          rest = unfold remove_element in (entries-unlink-back c.order h.distinct last);
          limit = unfold remove_element in refl;
          absent = λ k a. element_of-unlink-none k el c.order a;
        })
    where
      last_of :
          (o : List (ℕ × Entry K V))
          → 0 < length o
          → (el : ℕ) × (e : Entry K V) × (back o ≡ some (el, e))
      last_of [] p = absurd (omega arith)
      last_of (x ∷ o) p = back-some x o

  -- What a write makes of a cache.
  pub record Stores (e : Entry K V) (c c' : LruCache K V) : Type ℓ where
    pub keeps : Inv c'
    pub stores : contents c' ≡ store c.capacity e (contents c)
    pub limit : c'.capacity ≡ c.capacity

  push_front-Stores :
      (e : Entry K V) (c room : LruCache K V)
      → IsCoherent room.items room.order room.next_element
      → element_of e.key room.order ≡ none
      → length room.order < c.capacity
      → room.capacity ≡ c.capacity
      → e ∷ contents room ≡ store c.capacity e (contents c)
      → Stores e c (push_front e room)
  unfolding push_front
  push_front-Stores e c room h absent fits limit same = record {
    keeps = record {
      coherent = push-IsCoherent room.items room.order room.next_element e h absent;
      bounded = omega arith;
      positive = omega arith;
      sized = refl;
    };
    stores = same;
    limit = limit;
  }

  -- An entry whose key is in a full list that keeps its length.
  store_present :
      (c : LruCache K V) (e : Entry K V) {el : ℕ} {old : Entry K V}
      → Inv c
      → element_of e.key c.order ≡ some (el, old)
      → e ∷ entries (unlink el c.order) ≡ store c.capacity e (contents c)
  store_present c e {el} v there =
      let distinct = v.coherent.distinct in
      let dropped = entries-unlink e.key c.order distinct there in
      let shorter = length-unlink el c.order (entry_at-element_of e.key c.order distinct there) in
      let same = ap length dropped in
      let long = length-entries (unlink el c.order) in
      let fits : length (e ∷ drop_key e.key (contents c)) ≤ c.capacity = omega (arith, v.bounded) in
      ap (◌∷◌ e) dropped ∙ sym (take_whole c.capacity (e ∷ drop_key e.key (contents c)) fits)

  store_full :
      (c : LruCache K V) (e : Entry K V)
      → Inv c
      → element_of e.key c.order ≡ none
      → length c.order ≡ c.capacity
      → e ∷ drop_last (contents c) ≡ store c.capacity e (contents c)
  store_full c e v absent full = go c.capacity v.positive full
    where
      go :
          (n : ℕ) → 0 < n → length c.order ≡ n → e ∷ drop_last (contents c) ≡ store n e (contents c)
      go zero p h = absurd (omega arith)
      go (suc n) p h =
          rw (drop_key_absent e.key c.order absent)
            (ap (◌∷◌ e) (sym (take-drop_last n (contents c) (length-entries c.order ∙ h))))

  store_free :
      (c : LruCache K V) (e : Entry K V)
      → element_of e.key c.order ≡ none
      → length c.order < c.capacity
      → e ∷ contents c ≡ store c.capacity e (contents c)
  store_free c e absent free =
      let long = length-entries c.order in
      rw (drop_key_absent e.key c.order absent)
        (sym (take_whole c.capacity (e ∷ contents c) (omega arith)))

  make_room-Stores :
      (e : Entry K V) (c : LruCache K V)
      → element_of e.key c.order ≡ none
      → Inv c
      → Stores e c (push_front e (make_room c))
  unfolding make_room
  make_room-Stores e c absent v = elim (Bool-cases (leb c.capacity (length c.order))) [
    | inl full ↦
        let h : c.capacity ≤ length c.order = ground arith in
        let same : length c.order ≡ c.capacity = omega (arith, v.bounded) in
        let w = evict_oldest-Evicts c v.coherent (omega (arith, v.positive)) in
        rw full (
          push_front-Stores e c (evict_oldest c) w.coherent (w.absent e.key absent)
            (omega (arith, w.shorter)) w.limit (ap (◌∷◌ e) w.rest ∙ store_full c e v absent same))
    | inr free ↦
        let h : length c.order < c.capacity = ground arith in
        rw free (push_front-Stores e c c v.coherent absent h refl (store_free c e absent h))
  ]

  put_found-Stores :
      (e : Entry K V) (c : LruCache K V) (found : Option (ℕ × Entry K V))
      → element_of e.key c.order ≡ found
      → Inv c
      → Stores e c (put_found e found c)
  unfolding put_found
  put_found-Stores e c (some (el, old)) there v = record {
    keeps = touch-Inv c el e old v there;
    stores = unfold touch in (store_present c e v there);
    limit = unfold touch in refl;
  }
  put_found-Stores e c none absent v = make_room-Stores e c absent v

  -- `PutWithTTL` on a cache is the write to its list of at most `capacity` entries: the entry, with
  -- its expiry, becomes the most recent, replaces the one with its key and, if there is none and
  -- the cache is full, makes it drop the least recent; and it keeps the invariant, with which the
  -- map and the list agree, and the number of entries is at most the capacity.
  pub put_with_ttl-Stores :
      (now : ℤ) (key : K) (value : V) (ttl : ℤ) (c : LruCache K V)
      → Inv c
      → Stores
          (record { key = key; value = value; expires_at = expiry now ttl })
          c
          (put_with_ttl now key value ttl c)
  unfolding put_with_ttl
  put_with_ttl-Stores now key value ttl c v =
      let e : Entry K V = record { key = key; value = value; expires_at = expiry now ttl } in
      subst (λ found. Stores e c (put_found e found c)) (sym (find-eq c key v.coherent))
        (put_found-Stores e c (element_of key c.order) refl v)
