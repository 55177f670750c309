-- ===== src/Collections/Lru/Order.antt =====
-- The linked list of an LRU cache: elements and keys are distinct, and an element found by its key
-- is found by its identity.
use microservices_base.Prelude.{
  ℕ, ◌+◌, ◌≡◌, refl, ap, false, Option, none, some, List, [], ◌∷◌, inl, inr, arith, if◌then◌else◌,
  length, map, ◌==◌ as nat_beq, Bool-cases, ==_iff,
}
use microservices_base.Prelude.Eq.{Comparable, ◌==◌, eq_of_==, ==_refl, ne_of_==}
use microservices_base.Collections.Lru.{Entry, entry_at, unlink, back}

module _ {ℓ} {K V : Type ℓ} where
  abbrev pub entries : List (ℕ × Entry K V) → List (Entry K V)
  entries = map (λ x. x.1)

module _ {ℓ} {K V : Type ℓ} ⦃eq : Comparable K⦄ where
  -- The first element with a key.
  unfoldable pub element_of : K → List (ℕ × Entry K V) → Option (ℕ × Entry K V)
  element_of k [] = none
  element_of k ((i, e) ∷ o) = if e.key == k then some (i, e) else element_of k o

  -- No element and no key occurs twice.
  abbrev pub Distinct : List (ℕ × Entry K V) → Type ℓ
  Distinct [] = Unit
  Distinct ((i, e) ∷ o) = (entry_at i o ≡ none) × (element_of e.key o ≡ none) × Distinct o

  -- The list of entries without the first that has the key.
  unfoldable pub drop_key : K → List (Entry K V) → List (Entry K V)
  drop_key k [] = []
  drop_key k (e ∷ l) = if e.key == k then l else e ∷ drop_key k l

  pub element_of_key :
      (k : K) (o : List (ℕ × Entry K V)) {el : ℕ} {e : Entry K V}
      → element_of k o ≡ some (el, e)
      → e.key ≡ k
  unfolding element_of
  element_of_key k [] h = cc
  element_of_key k ((i, d) ∷ o) {el} {e} h = elim (Bool-cases (d.key == k)) [
    | inl same ↦ ground (arith, rw same at h, eq_of_== d.key k same)
    | inr other ↦ element_of_key k o (rw other at h)
  ]

  pub entry_at-element_of :
      (k : K) (o : List (ℕ × Entry K V)) {el : ℕ} {e : Entry K V}
      → Distinct o
      → element_of k o ≡ some (el, e)
      → entry_at el o ≡ some e
  unfolding element_of entry_at
  entry_at-element_of k [] d h = cc
  entry_at-element_of k ((i, x) ∷ o) {el} {e} d h = elim (Bool-cases (x.key == k)) [
    | inl same ↦ ground (arith, rw same at h)
    | inr other ↦
        let found = entry_at-element_of k o d.2 (rw other at h) in
        elim (Bool-cases (nat_beq i el)) [
          | inl twice ↦ cc (d.0, found, (==_iff i el).0 twice)
          | inr apart ↦ rw apart found
        ]
  ]

  -- An element found by its key in the rest of a list is not the head.
  pub not_head :
      (k : K) (i : ℕ) (x : Entry K V) (o : List (ℕ × Entry K V)) {el : ℕ} {e : Entry K V}
      → Distinct ((i, x) ∷ o)
      → element_of k o ≡ some (el, e)
      → nat_beq i el ≡ false
  not_head k i x o {el} d h = elim (Bool-cases (nat_beq i el)) [
    | inl twice ↦ cc (d.0, entry_at-element_of k o d.2 h, (==_iff i el).0 twice)
    | inr apart ↦ apart
  ]

  pub entries-unlink :
      (k : K) (o : List (ℕ × Entry K V)) {el : ℕ} {e : Entry K V}
      → Distinct o
      → element_of k o ≡ some (el, e)
      → entries (unlink el o) ≡ drop_key k (entries o)
  unfolding element_of unlink drop_key
  entries-unlink k [] d h = refl
  entries-unlink k ((i, x) ∷ o) {el} d h = elim (Bool-cases (x.key == k)) [
    | inl same ↦ ground (arith, rw same at h, same)
    | inr other ↦
        let found = rw other at h in
        rw (other, not_head k i x o d found) (ap (◌∷◌ x) (entries-unlink k o d.2 found))
  ]

  pub element_of-unlink :
      (k j : K) (o : List (ℕ × Entry K V)) {el : ℕ} {e : Entry K V}
      → Distinct o
      → element_of k o ≡ some (el, e)
      → element_of j (unlink el o) ≡ (if k == j then none else element_of j o)
  unfolding element_of unlink
  element_of-unlink k j [] d h = cc
  element_of-unlink k j ((i, x) ∷ o) {el} d h = elim (Bool-cases (x.key == k)) [
    | inl same ↦ ground (arith, rw same at h, eq_of_== x.key k same, eq.is_equal_iff k j, d.1)
    | inr other ↦
        let found = rw other at h in
        let ih = element_of-unlink k j o d.2 found in
        rw (not_head k i x o d found)
          (ground (arith, ih, ne_of_== x.key k other, eq.is_equal_iff k j, eq.is_equal_iff x.key j))
  ]

  pub element_of-unlink-none :
      (j : K) (el : ℕ) (o : List (ℕ × Entry K V))
      → element_of j o ≡ none
      → element_of j (unlink el o) ≡ none
  unfolding element_of unlink
  element_of-unlink-none j el [] h = refl
  element_of-unlink-none j el ((i, x) ∷ o) h = elim (Bool-cases (x.key == j)) [
    | inl same ↦ cc (rw same at h)
    | inr other ↦
        let ih = element_of-unlink-none j el o (rw other at h) in
        ground (arith, other, rw other at h, ih)
  ]

  pub entry_at-unlink-none :
      (j el : ℕ) (o : List (ℕ × Entry K V)) → entry_at j o ≡ none → entry_at j (unlink el o) ≡ none
  unfolding entry_at unlink
  entry_at-unlink-none j el [] h = refl
  entry_at-unlink-none j el ((i, x) ∷ o) h = elim (Bool-cases (nat_beq i j)) [
    | inl same ↦ cc (rw same at h)
    | inr other ↦
        let ih = entry_at-unlink-none j el o (rw other at h) in ground (arith, ih, rw other at h)
  ]

  pub unlink-Distinct : (el : ℕ) (o : List (ℕ × Entry K V)) → Distinct o → Distinct (unlink el o)
  unfolding unlink
  unlink-Distinct el [] d = tt
  unlink-Distinct el ((i, x) ∷ o) d = elim (Bool-cases (nat_beq i el)) [
    | inl same ↦ rw same d.2
    | inr other ↦ rw other (
      entry_at-unlink-none i el o d.0,
      element_of-unlink-none x.key el o d.1,
      unlink-Distinct el o d.2,
    )
  ]

  pub entry_at-unlink_self :
      (el : ℕ) (o : List (ℕ × Entry K V)) → Distinct o → entry_at el (unlink el o) ≡ none
  unfolding entry_at unlink
  entry_at-unlink_self el [] d = refl
  entry_at-unlink_self el ((i, x) ∷ o) d = elim (Bool-cases (nat_beq i el)) [
    | inl same ↦ rw same (rw (← (==_iff i el).0 same) d.0)
    | inr other ↦ rw other (rw other (entry_at-unlink_self el o d.2))
  ]

  pub element_of-back :
      (o : List (ℕ × Entry K V)) {el : ℕ} {e : Entry K V}
      → Distinct o
      → back o ≡ some (el, e)
      → element_of e.key o ≡ some (el, e)
  unfolding element_of back
  element_of-back [] d h = cc
  element_of-back ((i, x) ∷ []) {el} {e} d h = ground (arith, ==_refl x.key, ==_refl e.key)
  element_of-back ((i, x) ∷ y ∷ o) {el} {e} d h =
      let ih = element_of-back (y ∷ o) d.2 h in
      elim (Bool-cases (x.key == e.key)) [
        | inl same ↦ cc (d.1, ih, eq_of_== x.key e.key same)
        | inr other ↦ rw other ih
      ]

  -- The list without its last entry.
  unfoldable pub drop_last : List (Entry K V) → List (Entry K V)
  drop_last [] = []
  drop_last (e ∷ []) = []
  drop_last (e ∷ d ∷ l) = e ∷ drop_last (d ∷ l)

  -- The last element is found by its key, below the head.
  pub entries-unlink-back :
      (o : List (ℕ × Entry K V)) {el : ℕ} {e : Entry K V}
      → Distinct o
      → back o ≡ some (el, e)
      → entries (unlink el o) ≡ drop_last (entries o)
  unfolding unlink back drop_last
  entries-unlink-back [] d h = refl
  entries-unlink-back ((i, x) ∷ []) {el} d h = ground arith
  entries-unlink-back ((i, x) ∷ y ∷ o) {el} {e} d h =
      let below = element_of-back (y ∷ o) d.2 h in
      rw (not_head e.key i x (y ∷ o) d below) (ap (◌∷◌ x) (entries-unlink-back (y ∷ o) d.2 h))

  pub back-some :
      (x : ℕ × Entry K V) (o : List (ℕ × Entry K V))
      → (el : ℕ) × (e : Entry K V) × (back (x ∷ o) ≡ some (el, e))
  unfolding back
  back-some (i, x) [] = (i, x, refl)
  back-some x (y ∷ o) = back-some y o

  pub length-unlink :
      (el : ℕ) (o : List (ℕ × Entry K V)) {e : Entry K V}
      → entry_at el o ≡ some e
      → length (unlink el o) + 1 ≡ length o
  unfolding unlink entry_at
  length-unlink el [] h = cc
  length-unlink el ((i, x) ∷ o) h = elim (Bool-cases (nat_beq i el)) [
    | inl same ↦ rw same (omega arith)
    | inr other ↦ let ih = length-unlink el o (rw other at h) in rw other (omega arith)
  ]
