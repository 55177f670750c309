-- ===== src/Collections/Lru/Coherence.antt =====
-- The agreement of the map and the list of an LRU cache.
use microservices_base.Prelude.{
  ℕ, ◌+◌, ◌≤◌, ◌≡◌, ◌∙◌, Option, none, some, List, ◌∷◌, inl, inr, arith, Bool-cases, Option-cases,
  ◌==◌ as nat_beq, ==_iff,
}
use microservices_base.Prelude.Eq.{Comparable, ◌==◌, eq_of_==, ==_refl}
use microservices_base.Prelude.Assoc.{lookup, insert, remove, lookup-insert, lookup-remove}
use microservices_base.Collections.Lru.{Entry, LruCache, entry_at, unlink, find}
use microservices_base.Collections.Lru.Order.{
  Distinct, element_of, entry_at-element_of, element_of-unlink, unlink-Distinct,
  entry_at-unlink-none, entry_at-unlink_self,
}

abbrev pub number_of {ℓ} : {K V : Type ℓ} → Option (ℕ × Entry K V) → Option ℕ
number_of none = none
number_of (some (el, e)) = some el

module _ {ℓ} {K V : Type ℓ} ⦃eq : Comparable K⦄ where
  -- The map has for each key the element of the list that has the key; no element and no key
  -- occurs twice in the list, and the next element is new.
  pub record IsCoherent (items : List (K × ℕ)) (order : List (ℕ × Entry K V)) (next : ℕ)
      : Type ℓ where
    pub index : (k : K) → lookup k items ≡ number_of (element_of k order)
    pub distinct : Distinct order
    pub fresh : (el : ℕ) → next ≤ el → entry_at el order ≡ none

  pub find-eq :
      (c : LruCache K V) (k : K)
      → IsCoherent c.items c.order c.next_element
      → find k c ≡ element_of k c.order
  find-eq c k h = elim (Option-cases (element_of k c.order)) [
    | inl absent ↦ rw (h.index k, absent)
    | inr ((el, e), there) ↦ rw (h.index k, there, entry_at-element_of k c.order h.distinct there)
  ]

  pub unlink-IsCoherent :
      (items : List (K × ℕ)) (o : List (ℕ × Entry K V)) (next el : ℕ) (e : Entry K V)
      → IsCoherent items o next
      → element_of e.key o ≡ some (el, e)
      → IsCoherent (remove e.key items) (unlink el o) next
  unlink-IsCoherent items o next el e h there = record {
    index = λ k. lookup-remove e.key k items ∙ (elim (Bool-cases (e.key == k)) [
      | inl same ↦ rw (element_of-unlink e.key k o h.distinct there, same)
      | inr other ↦ rw (element_of-unlink e.key k o h.distinct there, other) (h.index k)
    ]);
    distinct = unlink-Distinct el o h.distinct;
    fresh = λ i n. entry_at-unlink-none i el o (h.fresh i n);
  }

  -- An element moved to the front with another entry for its key.
  pub touch-IsCoherent :
      (items : List (K × ℕ)) (o : List (ℕ × Entry K V)) (next el : ℕ) (e old : Entry K V)
      → IsCoherent items o next
      → element_of e.key o ≡ some (el, old)
      → IsCoherent items ((el, e) ∷ unlink el o) next
  unfolding element_of entry_at
  touch-IsCoherent items o next el e old h there = record {
    index = λ k. h.index k ∙ (elim (Bool-cases (e.key == k)) [
      | inl same ↦ rw (same, ← eq_of_== e.key k same, there)
      | inr other ↦ rw (other, element_of-unlink e.key k o h.distinct there, other)
    ]);
    distinct = (
      entry_at-unlink_self el o h.distinct,
      rw (element_of-unlink e.key e.key o h.distinct there, ==_refl e.key),
      unlink-Distinct el o h.distinct,
    );
    fresh = λ i n. elim (Bool-cases (nat_beq el i)) [
      | inl same ↦
          cc
            (h.fresh el (rw ((==_iff el i).0 same) n), entry_at-element_of e.key o h.distinct there)
      | inr other ↦ rw other (entry_at-unlink-none i el o (h.fresh i n))
    ];
  }

  pub push-IsCoherent :
      (items : List (K × ℕ)) (o : List (ℕ × Entry K V)) (next : ℕ) (e : Entry K V)
      → IsCoherent items o next
      → element_of e.key o ≡ none
      → IsCoherent (insert e.key next items) ((next, e) ∷ o) (next + 1)
  unfolding element_of entry_at
  push-IsCoherent items o next e h absent = record {
    index = λ k. lookup-insert e.key k next items ∙ (elim (Bool-cases (e.key == k)) [
      | inl same ↦ rw same
      | inr other ↦ rw other (h.index k)
    ]);
    distinct = (h.fresh next (omega arith), absent, h.distinct);
    fresh = λ i n. ground (arith, h.fresh i);
  }
