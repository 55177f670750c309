-- ===== src/Collections/Lru.antt =====
-- libs/go/src/collections/lru.go. The code keeps a map from keys to elements of a doubly linked
-- list. An element is a pointer: here it is a number, and `order` is the list, front first, of the
-- elements with their entries. An element of the map that is not in the list counts as missing;
-- `Coherence` is about the agreement of the two. `now` is what `time.Now` returned; the zero time is
-- `none`. `evicted` records the calls of the eviction callback, latest first.
mod Order
mod Coherence
mod Recency
mod Store
mod Sweep
mod Cleanup
mod Refine
mod Tests
use microservices_base.Prelude.{
  ℕ, zero, suc, ◌+◌, Bool, true, false, not, ◌&&◌, Option, none, some, List, [], ◌∷◌, ◌++◌,
  if◌then◌else◌, ltb, leb, length, map, ◌==◌ as nat_beq,
}
use microservices_base.Prelude.Int.{ℤ, pos, pos_part, leb_ℤ, ltb_ℤ, ◌+ℤ◌}
use microservices_base.Prelude.Eq.{Comparable, ◌==◌}
use microservices_base.Prelude.Assoc.{lookup, insert, remove}

pub record Stats : Type 0 where
  pub hits : ℕ
  pub misses : ℕ
  pub evictions : ℕ
  pub expirations : ℕ
  pub size : ℕ
  pub capacity : ℕ

-- `lruEntry`.
pub record Entry {ℓ} (K V : Type ℓ) : Type ℓ where
  pub key : K
  pub value : V
  pub expires_at : Option ℤ

pub record LruCache {ℓ} (K V : Type ℓ) : Type ℓ where
  pub capacity : ℕ
  pub items : List (K × ℕ)
  pub order : List (ℕ × Entry K V)
  pub next_element : ℕ
  pub has_callback : Bool
  pub evicted : List (K × V)
  pub ttl : ℤ
  pub stats : Stats

-- `if capacity <= 0 { capacity = 1 }`.
abbrev pub at_least_one : ℤ → ℕ
at_least_one capacity = if leb_ℤ capacity (pos 0) then 1 else pos_part capacity

unfoldable pub new_lru {ℓ} : {K V : Type ℓ} → ℤ → LruCache K V
new_lru capacity = record {
  capacity = at_least_one capacity;
  items = [];
  order = [];
  next_element = 0;
  has_callback = false;
  evicted = [];
  ttl = pos 0;
  stats = record {
    hits = 0;
    misses = 0;
    evictions = 0;
    expirations = 0;
    size = 0;
    capacity = at_least_one capacity;
  };
}

unfoldable pub with_ttl {ℓ} : {K V : Type ℓ} → ℤ → LruCache K V → LruCache K V
with_ttl ttl c = record c { ttl = ttl }

unfoldable pub with_evict_callback {ℓ} : {K V : Type ℓ} → LruCache K V → LruCache K V
with_evict_callback c = record c { has_callback = true }

-- `!entry.expiresAt.IsZero() && now.After(entry.expiresAt)`.
abbrev pub is_expired {ℓ} : {K V : Type ℓ} → ℤ → Entry K V → Bool
is_expired now e = elim e.expires_at [ none ↦ false | some at ↦ ltb_ℤ at now ]

-- The expiry of an entry that is stored at `now`.
abbrev pub expiry : ℤ → ℤ → Option ℤ
expiry now ttl = if ltb_ℤ (pos 0) ttl then some (now +ℤ ttl) else none

-- The linked list of `container/list`.
module _ {ℓ} {K V : Type ℓ} where
  -- The entry of an element of the list.
  unfoldable pub entry_at : ℕ → List (ℕ × Entry K V) → Option (Entry K V)
  entry_at el [] = none
  entry_at el ((i, e) ∷ order) = if nat_beq i el then some e else entry_at el order

  -- `order.Remove(elem)`.
  unfoldable pub unlink : ℕ → List (ℕ × Entry K V) → List (ℕ × Entry K V)
  unlink el [] = []
  unlink el ((i, e) ∷ order) = if nat_beq i el then order else (i, e) ∷ unlink el order

  -- `order.Back()`.
  unfoldable pub back : List (ℕ × Entry K V) → Option (ℕ × Entry K V)
  back [] = none
  back (x ∷ []) = some x
  back (x ∷ y ∷ order) = back (y ∷ order)

  abbrev pub number_with : ℕ → Option (Entry K V) → Option (ℕ × Entry K V)
  number_with el none = none
  number_with el (some e) = some (el, e)

  -- `c.items[key]` and `elem.Value.(*lruEntry[K, V])`.
  abbrev pub found_in : List (ℕ × Entry K V) → Option ℕ → Option (ℕ × Entry K V)
  found_in order none = none
  found_in order (some el) = number_with el (entry_at el order)

module _ {ℓ} {K V : Type ℓ} ⦃eq : Comparable K⦄ where
  unfoldable pub remove_element : ℕ → Entry K V → LruCache K V → LruCache K V
  remove_element el e c =
      let order = unlink el c.order in
      record c {
        items = remove e.key c.items;
        order = order;
        stats = record c.stats { size = length order };
        evicted = if c.has_callback then (e.key, e.value) ∷ c.evicted else c.evicted;
      }

  pub evict_oldest : LruCache K V → LruCache K V
  unfolding remove_element
  evict_oldest c = elim (back c.order) [
    | none ↦ c
    | some (el, e) ↦
        let c' = remove_element el e c in
        record c' { stats = record c'.stats { evictions = c'.stats.evictions + 1 } }
  ]

  -- The element and the entry that the map has for a key.
  abbrev pub find : K → LruCache K V → Option (ℕ × Entry K V)
  find key c = found_in c.order (lookup key c.items)

  pub miss : LruCache K V → LruCache K V
  miss c = record c { stats = record c.stats { misses = c.stats.misses + 1 } }

  pub expire : ℕ → Entry K V → LruCache K V → LruCache K V
  unfolding remove_element miss
  expire el e c =
      let c' = remove_element el e c in
      miss (record c' { stats = record c'.stats { expirations = c'.stats.expirations + 1 } })

  -- `MoveToFront`, with the entry as it is then.
  pub touch : ℕ → Entry K V → LruCache K V → LruCache K V
  touch el e c = record c { order = (el, e) ∷ unlink el c.order }

  pub hit : LruCache K V → LruCache K V
  hit c = record c { stats = record c.stats { hits = c.stats.hits + 1 } }

  pub get_found : ℤ → Option (ℕ × Entry K V) → LruCache K V → LruCache K V × Option V
  unfolding miss expire touch hit
  get_found now none c = (miss c, none)
  get_found now (some (el, e)) c =
      if is_expired now e then (expire el e c, none) else (hit (touch el e c), some e.value)

  unfoldable pub get : ℤ → K → LruCache K V → LruCache K V × Option V
  unfolding get_found
  get now key c = get_found now (find key c) c

  pub push_front : Entry K V → LruCache K V → LruCache K V
  push_front e c =
      let order = (c.next_element, e) ∷ c.order in
      record c {
        order = order;
        items = insert e.key c.next_element c.items;
        next_element = c.next_element + 1;
        stats = record c.stats { size = length order };
      }

  pub make_room : LruCache K V → LruCache K V
  make_room c = if leb c.capacity (length c.order) then evict_oldest c else c

  pub put_found : Entry K V → Option (ℕ × Entry K V) → LruCache K V → LruCache K V
  put_found e (some (el, old)) c = touch el e c
  put_found e none c = push_front e (make_room c)

  unfoldable pub put_with_ttl : ℤ → K → V → ℤ → LruCache K V → LruCache K V
  unfolding put_found
  put_with_ttl now key value ttl c =
      put_found (record { key = key; value = value; expires_at = expiry now ttl }) (find key c) c

  unfoldable pub put : ℤ → K → V → LruCache K V → LruCache K V
  put now key value c = put_with_ttl now key value c.ttl c

  -- `GetOrCompute`, with what `compute` returns and the time at which the value is stored.
  unfoldable pub get_or_compute : ℤ → ℤ → K → V → LruCache K V → LruCache K V × V
  get_or_compute now later key computed c =
      let (c', found) = get now key c in
      elim found [ some v ↦ (c', v) | none ↦ (put later key computed c', computed) ]

  pub remove_found : Option (ℕ × Entry K V) → LruCache K V → LruCache K V × Bool
  unfolding remove_element
  remove_found none c = (c, false)
  remove_found (some (el, e)) c = (remove_element el e c, true)

  -- `Remove`.
  unfoldable pub remove_key : K → LruCache K V → LruCache K V × Bool
  unfolding remove_found
  remove_key key c = remove_found (find key c) c

  unfoldable pub contains : K → LruCache K V → Bool
  contains key c = elim (lookup key c.items) [ none ↦ false | some el ↦ true ]

  unfoldable pub peek : ℤ → K → LruCache K V → Option V
  peek now key c = elim (find key c) [
    | none ↦ none
    | some (el, e) ↦ if is_expired now e then none else some e.value
  ]

  unfoldable pub size : LruCache K V → ℕ
  size c = length c.order

  unfoldable pub clear : LruCache K V → LruCache K V
  clear c = record c { items = []; order = []; stats = record c.stats { size = 0 } }

  -- The loop of `Resize`.
  pub evict_down : ℕ → LruCache K V → LruCache K V
  unfolding evict_oldest
  evict_down zero c = c
  evict_down (suc rounds) c =
      let rest = evict_down rounds (evict_oldest c) in
      if ltb c.capacity (length c.order) then rest else c

  unfoldable pub resize : ℤ → LruCache K V → LruCache K V
  unfolding evict_down
  resize capacity c = evict_down (length c.order) (record c {
    capacity = at_least_one capacity;
    stats = record c.stats { capacity = at_least_one capacity };
  })

  -- The loop of `Cleanup`, over the elements from the back to the front.
  pub sweep : ℤ → List (ℕ × Entry K V) → LruCache K V → LruCache K V × ℕ
  unfolding remove_element
  sweep now [] c = (c, 0)
  sweep now ((el, e) ∷ rest) c =
      let (c', removed) = sweep now rest c in
      let c'' = remove_element el e c' in
      if is_expired now e
      then (
        record c'' { stats = record c''.stats { expirations = c''.stats.expirations + 1 } },
        removed + 1,
      )
      else (c', removed)

  unfoldable pub cleanup : ℤ → LruCache K V → LruCache K V × ℕ
  unfolding sweep
  cleanup now c =
      let (c', removed) = sweep now c.order c in
      (record c' { stats = record c'.stats { size = length c'.order } }, removed)

  -- `Collect`, the pairs that `All` yields.
  pub collect_from : ℤ → List (ℕ × Entry K V) → List (K × V)
  collect_from now [] = []
  collect_from now ((el, e) ∷ rest) =
      let others = collect_from now rest in
      if is_expired now e then others else (e.key, e.value) ∷ others

  unfoldable pub collect : ℤ → LruCache K V → List (K × V)
  unfolding collect_from
  collect now c = collect_from now c.order

  unfoldable pub keys : LruCache K V → List K
  keys c = map (λ item. item.0) c.items

  -- `Values`, which keeps an entry that expires after `now`.
  pub live_values : ℤ → List (ℕ × Entry K V) → List V
  live_values now [] = []
  live_values now ((el, e) ∷ order) =
      let others = live_values now order in
      if (elim e.expires_at [ none ↦ true | some at ↦ ltb_ℤ now at ])
      then e.value ∷ others
      else others

  unfoldable pub values : ℤ → LruCache K V → List V
  unfolding live_values
  values now c = live_values now c.order

  unfoldable pub is_empty : LruCache K V → Bool
  is_empty c = nat_beq (length c.order) 0

  -- `Stats`, with the hit rate as a fraction, hits over reads; `none` stands for the rate 0 that is
  -- left when there was no read.
  unfoldable pub stats_of : LruCache K V → Stats × Option (ℕ × ℕ)
  stats_of c =
      let total = c.stats.hits + c.stats.misses in
      (
        record c.stats { size = length c.order },
        if ltb 0 total then some (c.stats.hits, total) else none,
      )
