-- ===== src/Collections/Lru/Refine.antt =====
-- The LRU cache against the list of entries that it stands for, over whole runs of calls.
use microservices_base.Prelude.{
  ℕ, ◌-◌, ◌≡◌, refl, sym, ap, ap₂, ◌∙◌, Bool, Option, none, some, List, [], ◌∷◌, inl, inr, arith,
  if◌then◌else◌, length, Bool-cases, Option-cases, take, length-map,
}
use microservices_base.Prelude.Int.{ℤ}
use microservices_base.Prelude.Eq.{Comparable}
use microservices_base.Prelude.Assoc.{lookup}
use microservices_base.Collections.Lru.{
  Entry, LruCache, is_expired, expiry, at_least_one, new_lru, get, put_with_ttl, remove_key, peek,
  contains, size, resize, cleanup, clear, entry_at,
}
use microservices_base.Collections.Lru.Order.{drop_key, element_of}
use microservices_base.Collections.Lru.Coherence.{find-eq}
use microservices_base.Collections.Lru.Recency.{
  Inv, contents, read, read_found, get-Reads, entry_of, entry_of-entries, entry_of-entries_none,
}
use microservices_base.Collections.Lru.Store.{store, put_with_ttl-Stores}
use microservices_base.Collections.Lru.Sweep.{
  is_there, at_least_one-pos, resize-Becomes, clear-Becomes, Removes, remove_key-Removes,
}
use microservices_base.Collections.Lru.Cleanup.{alive, Cleans, cleanup-Cleans}

-- A call of a method, with what the clock shows and the arguments.
pub data Call {ℓ} (K V : Type ℓ) : Type ℓ where
  get_call : ℤ → K → Call K V
  put_call : ℤ → K → V → ℤ → Call K V
  remove_call : K → Call K V
  peek_call : ℤ → K → Call K V
  contains_call : K → Call K V
  size_call : Call K V
  resize_call : ℤ → Call K V
  cleanup_call : ℤ → Call K V
  clear_call : Call K V

pub data Reply {ℓ} (V : Type ℓ) : Type ℓ where
  value : Option V → Reply V
  flag : Bool → Reply V
  count : ℕ → Reply V
  done : Reply V

module _ {ℓ} {K V : Type ℓ} ⦃eq : Comparable K⦄ where
  abbrev answer : Call K V → LruCache K V → LruCache K V × Reply V
  answer (get_call now k) c = ((get now k c).0, value (get now k c).1)
  answer (put_call now k v ttl) c = (put_with_ttl now k v ttl c, done)
  answer (remove_call k) c = ((remove_key k c).0, flag (remove_key k c).1)
  answer (peek_call now k) c = (c, value (peek now k c))
  answer (contains_call k) c = (c, flag (contains k c))
  answer size_call c = (c, count (size c))
  answer (resize_call n) c = (resize n c, done)
  answer (cleanup_call now) c = ((cleanup now c).0, count (cleanup now c).1)
  answer clear_call c = (clear c, done)

  -- What the calls mean on a capacity and a list of entries, the most recently used first.
  abbrev meaning : Call K V → ℕ × List (Entry K V) → (ℕ × List (Entry K V)) × Reply V
  meaning (get_call now k) (n, l) = ((n, (read now k l).0), value (read now k l).1)
  meaning (put_call now k v ttl) (n, l) =
      ((n, store n (record { key = k; value = v; expires_at = expiry now ttl }) l), done)
  meaning (remove_call k) (n, l) = ((n, drop_key k l), flag (is_there (entry_of k l)))
  meaning (peek_call now k) (n, l) = ((n, l), value (read now k l).1)
  meaning (contains_call k) (n, l) = ((n, l), flag (is_there (entry_of k l)))
  meaning size_call (n, l) = ((n, l), count (length l))
  meaning (resize_call m) (n, l) = ((at_least_one m, take (at_least_one m) l), done)
  meaning (cleanup_call now) (n, l) = ((n, alive now l), count (length l - length (alive now l)))
  meaning clear_call (n, l) = ((n, []), done)

  -- The replies of a cache to a row of calls.
  unfoldable pub serve : List (Call K V) → LruCache K V → List (Reply V)
  serve [] c = []
  serve (call ∷ calls) c = (answer call c).1 ∷ serve calls (answer call c).0

  unfoldable pub serve_list : List (Call K V) → ℕ × List (Entry K V) → List (Reply V)
  serve_list [] s = []
  serve_list (call ∷ calls) s = (meaning call s).1 ∷ serve_list calls (meaning call s).0

  abbrev view : LruCache K V → ℕ × List (Entry K V)
  view c = (c.capacity, contents c)

  -- A call answers as its meaning does, and leaves a cache that stands for what the meaning leaves.
  record Answers (call : Call K V) (c : LruCache K V) : Type ℓ where
    keeps : Inv (answer call c).0
    after : view (answer call c).0 ≡ (meaning call (view c)).0
    reply : (answer call c).1 ≡ (meaning call (view c)).1

  seen :
      (now : ℤ) (k : K) (e : Entry K V) (l : List (Entry K V))
      → (if is_expired now e then none else some e.value) ≡ (read_found now k (some e) l).1
  seen now k e l = elim (Bool-cases (is_expired now e)) [
    | inl old ↦ rw old refl
    | inr young ↦ rw young refl
  ]

  peek-eq :
      (now : ℤ) (k : K) (c : LruCache K V) → Inv c → peek now k c ≡ (read now k (contents c)).1
  unfolding peek
  peek-eq now k c v = elim (Option-cases (element_of k c.order)) [
    | inl absent ↦
        rw (peek, find-eq c k v.coherent, absent, entry_of-entries_none k c.order absent) refl
    | inr ((el, e), there) ↦
        rw (peek, find-eq c k v.coherent, there, entry_of-entries k c.order there)
          (seen now k e (contents c))
  ]

  contains-eq :
      (k : K) (c : LruCache K V) → Inv c → contains k c ≡ is_there (entry_of k (contents c))
  unfolding contains
  contains-eq k c v = elim (Option-cases (element_of k c.order)) [
    | inl absent ↦
        rw (contains, v.coherent.index k, absent, entry_of-entries_none k c.order absent) refl
    | inr ((el, e), there) ↦
        rw (contains, v.coherent.index k, there, entry_of-entries k c.order there) refl
  ]

  answer-Answers : (call : Call K V) (c : LruCache K V) → Inv c → Answers call c
  unfolding Removes Cleans size
  answer-Answers (get_call now k) c v =
      let w = get-Reads now k c v in
      record {
        keeps = w.keeps;
        after = ap₂ (λ n l. (n, l)) w.limit (ap (λ r. r.0) w.reads);
        reply = ap (λ r. value r.1) w.reads;
      }
  answer-Answers (put_call now k x ttl) c v =
      let w = put_with_ttl-Stores now k x ttl c v in
      record { keeps = w.keeps; after = ap₂ (λ n l. (n, l)) w.limit w.stores; reply = refl }
  answer-Answers (remove_call k) c v =
      let (w, said) = remove_key-Removes k c v in
      record { keeps = w.keeps; after = ap₂ (λ n l. (n, l)) w.limit w.holds; reply = ap flag said }
  answer-Answers (peek_call now k) c v = record {
    keeps = v;
    after = refl;
    reply = ap value (peek-eq now k c v);
  }
  answer-Answers (contains_call k) c v = record {
    keeps = v;
    after = refl;
    reply = ap flag (contains-eq k c v);
  }
  answer-Answers size_call c v = record {
    keeps = v;
    after = refl;
    reply = ap count (sym (length-map c.order (λ x. x.1)));
  }
  answer-Answers (resize_call n) c v =
      let w = resize-Becomes n c v in
      record { keeps = w.keeps; after = ap₂ (λ n l. (n, l)) w.limit w.holds; reply = refl }
  answer-Answers (cleanup_call now) c v =
      let (w, said) = cleanup-Cleans now c v in
      record { keeps = w.keeps; after = ap₂ (λ n l. (n, l)) w.limit w.holds; reply = ap count said }
  answer-Answers clear_call c v =
      let w = clear-Becomes c v in
      record { keeps = w.keeps; after = ap₂ (λ n l. (n, l)) w.limit w.holds; reply = refl }

  serve-eq :
      (calls : List (Call K V)) (c : LruCache K V)
      → Inv c
      → serve calls c ≡ serve_list calls (view c)
  unfolding serve serve_list
  serve-eq [] c v = refl
  serve-eq (call ∷ calls) c v =
      let w = answer-Answers call c v in
      ap₂ (◌∷◌) w.reply (serve-eq calls (answer call c).0 w.keeps ∙ ap (serve_list calls) w.after)

  pub new_lru-Inv : (capacity : ℤ) → Inv (new_lru {K = K} {V = V} capacity)
  unfolding new_lru element_of entry_at lookup
  new_lru-Inv capacity = record {
    coherent = record { index = λ k. refl; distinct = tt; fresh = λ i n. refl };
    bounded = omega arith;
    positive = at_least_one-pos capacity;
    sized = refl;
  }

  -- A new cache answers every row of calls (Get, PutWithTTL, Remove, Peek, Contains, Size, Resize,
  -- Cleanup and Clear, with any times) as a plain list of at most `capacity` entries does, the most
  -- recently used first: the map, the linked list and the loops make no difference to a caller.
  pub serve-new_lru :
      (capacity : ℤ) (calls : List (Call K V))
      → serve calls (new_lru capacity) ≡ serve_list calls (at_least_one capacity, [])
  unfolding new_lru
  serve-new_lru capacity calls = serve-eq calls (new_lru capacity) (new_lru-Inv capacity)
