-- ===== src/Utils/Merge/Unique.antt =====
-- What SlicesUniqueBy returns.
use native.Mathlib.Omega.{arith}
use microservices_base.Prelude.{
  ◌≡◌, ◌≢◌, false, Option, none, some, List, [], ◌∷◌, inl, inr, Bool-cases, if◌then◌else◌,
}
use microservices_base.Prelude.Eq.{Comparable, ◌==◌, member, ==_refl}
use microservices_base.Prelude.Order.{All, all_nil, all_cons, All-map}
use microservices_base.Utils.Diff.Subsequence.{Subsequence, done, skip, keep}
use microservices_base.Utils.Merge.{slices, unique_loop, slices_unique_by}

module _ {ℓ κ} {A : Type ℓ} {K : Type κ} ⦃e : Comparable K⦄ (key_fn : A → K) where
  -- The first element with a key.
  pub first_with : K → List A → Option A
  first_with k [] = none
  first_with k (x ∷ l) = if key_fn x == k then some x else first_with k l

  pub data Distinct : List A → Type (ℓ ⊔ κ) where
    distinct_nil : Distinct []
    distinct_cons :
        {x : A} {l : List A} → All (λ y. key_fn y ≢ key_fn x) l → Distinct l → Distinct (x ∷ l)

  -- Elements of the input in their order, one for each key, the first.
  pub record Firsts (input kept : List A) : Type (ℓ ⊔ κ) where
    pub in_order : Subsequence kept input
    pub distinct : Distinct kept
    pub first : (k : K) → first_with k kept ≡ first_with k input

  unique_loop-Subsequence : (seen : List K) (l : List A) → Subsequence (unique_loop key_fn seen l) l
  unfolding unique_loop
  unique_loop-Subsequence seen [] = done
  unique_loop-Subsequence seen (v ∷ l) = elim (Bool-cases (member (key_fn v) seen)) [
    | inl old ↦ rw (unique_loop, old) (skip (unique_loop-Subsequence seen l))
    | inr new ↦ rw (unique_loop, new) (keep (unique_loop-Subsequence (key_fn v ∷ seen) l))
  ]

  unique_loop_unseen :
      (seen : List K) (l : List A)
      → All (λ y. member (key_fn y) seen ≡ false) (unique_loop key_fn seen l)
  unfolding unique_loop
  unique_loop_unseen seen [] = all_nil
  unique_loop_unseen seen (v ∷ l) = elim (Bool-cases (member (key_fn v) seen)) [
    | inl old ↦ rw (unique_loop, old) (unique_loop_unseen seen l)
    | inr new ↦
        rw (unique_loop, new)
          (all_cons new
            (All-map (λ y u. ground (arith, u)) (unique_loop_unseen (key_fn v ∷ seen) l)))
  ]

  other_key :
      (x y : A) (seen : List K) → member (key_fn y) (key_fn x ∷ seen) ≡ false → key_fn y ≢ key_fn x
  other_key x y seen u p = grind (arith, ==_refl (key_fn x))

  unique_loop-Distinct : (seen : List K) (l : List A) → Distinct (unique_loop key_fn seen l)
  unfolding unique_loop
  unique_loop-Distinct seen [] = distinct_nil
  unique_loop-Distinct seen (v ∷ l) = elim (Bool-cases (member (key_fn v) seen)) [
    | inl old ↦ rw (unique_loop, old) (unique_loop-Distinct seen l)
    | inr new ↦
        rw (unique_loop, new)
          (distinct_cons
            (All-map (λ y. other_key v y seen) (unique_loop_unseen (key_fn v ∷ seen) l))
            (unique_loop-Distinct (key_fn v ∷ seen) l))
  ]

  first_with-unique_loop :
      (k : K) (seen : List K) (l : List A)
      → first_with k (unique_loop key_fn seen l) ≡ (if member k seen then none else first_with k l)
  unfolding unique_loop first_with
  first_with-unique_loop k seen [] = ground arith
  first_with-unique_loop k seen (v ∷ l) = grind (
    arith,
    e.is_equal_iff (key_fn v) k,
    first_with-unique_loop k seen l,
    first_with-unique_loop k (key_fn v ∷ seen) l,
  )

  -- SlicesUniqueBy returns, in their order, the first elements of each key that the slices have.
  pub slices_unique_by-Firsts :
      (ss : List (List A)) → Firsts (slices ss) (slices_unique_by key_fn ss)
  unfolding slices_unique_by
  slices_unique_by-Firsts ss = record {
    in_order = unique_loop-Subsequence [] (slices ss);
    distinct = unique_loop-Distinct [] (slices ss);
    first = λ k. first_with-unique_loop k [] (slices ss);
  }
