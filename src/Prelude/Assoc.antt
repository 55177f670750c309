-- ===== src/Prelude/Assoc.antt =====
-- Go's maps as association lists. The order of a `range` over a map is not specified; where a
-- function ranges over one, the model follows the list and the theorems speak of membership.
use native.Mathlib.Omega.{arith}
use microservices_base.Prelude.{
  ℕ, ◌+◌, ◌<◌, ◌≤◌, ◌≡◌, ◌≢◌, refl, false, Option, none, some, List, [], ◌∷◌, if◌then◌else◌,
  Bool-cases, inl, inr, length,
}
use microservices_base.Prelude.Eq.{Comparable, ◌==◌, ==_refl, eq_of_==, ==_of_ne, member}

module _ {ℓ κ} {K : Type ℓ} {V : Type κ} ⦃e : Comparable K⦄ where
  -- A write keeps the place of a key that the map has.
  unfoldable pub insert : K → V → List (K × V) → List (K × V)
  insert key new ((i, old) ∷ rest) =
      if i == key then (key, new) ∷ rest else (i, old) ∷ insert key new rest
  insert key new [] = (key, new) ∷ []

  unfoldable pub lookup : K → List (K × V) → Option V
  lookup key ((i, found) ∷ rest) = if i == key then some found else lookup key rest
  lookup key [] = none

  -- `delete(m, k)`.
  unfoldable pub remove : K → List (K × V) → List (K × V)
  remove k [] = []
  remove k ((j, w) ∷ m) = if j == k then remove k m else (j, w) ∷ remove k m

  pub lookup-insert :
      (key other : K) (new : V) (items : List (K × V))
      → lookup other (insert key new items)
        ≡ (if key == other then some new else lookup other items)
  unfolding insert lookup
  lookup-insert key other new ((i, old) ∷ rest) =
      let ih = lookup-insert key other new rest in
      ground (arith, ih, e.is_equal_iff i key, e.is_equal_iff i other, e.is_equal_iff key other)
  lookup-insert key other new [] = refl

  pub lookup-insert_self : (k : K) (v : V) (m : List (K × V)) → lookup k (insert k v m) ≡ some v
  lookup-insert_self k v m = rw (lookup-insert k k v m, ==_refl k)

  pub lookup-insert_ne :
      (k j : K) (v : V) (m : List (K × V)) → k ≢ j → lookup j (insert k v m) ≡ lookup j m
  lookup-insert_ne k j v m h = rw (lookup-insert k j v m, ==_of_ne k j h)

  pub lookup-remove :
      (k j : K) (m : List (K × V)) → lookup j (remove k m) ≡ (if k == j then none else lookup j m)
  unfolding lookup remove
  lookup-remove k j [] = ground arith
  lookup-remove k j ((i, w) ∷ m) =
      ground
        (arith, e.is_equal_iff k j, e.is_equal_iff i k, e.is_equal_iff i j, lookup-remove k j m)

  -- How many entries of the map have a key that is not in the list.
  unfoldable pub unseen : List K → List (K × V) → ℕ
  unseen seen [] = 0
  unseen seen ((k, _) ∷ m) = (if member k seen then 0 else 1) + unseen seen m

  pub unseen-nil : (m : List (K × V)) → unseen [] m ≡ length m
  unfolding unseen
  unseen-nil [] = refl
  unseen-nil ((k, v) ∷ m) = omega (arith, unseen-nil m)

  pub unseen-cons-le :
      (k : K) (seen : List K) (m : List (K × V)) → unseen (k ∷ seen) m ≤ unseen seen m
  unfolding unseen
  unseen-cons-le k seen [] = omega arith
  unseen-cons-le k seen ((j, v) ∷ m) = ground (arith, unseen-cons-le k seen m)

  -- To see a key of the map leaves fewer unseen.
  pub unseen-cons :
      (k : K) (seen : List K) (m : List (K × V)) {v : V}
      → member k seen ≡ false
      → lookup k m ≡ some v
      → unseen (k ∷ seen) m < unseen seen m
  unfolding unseen lookup
  unseen-cons k seen [] h p = cc
  unseen-cons k seen ((j, w) ∷ m) h p = elim (Bool-cases (j == k)) [
    | inl same ↦
        let at_j : member j seen ≡ false = rw (eq_of_== j k same) h in
        ground (arith, unseen-cons-le k seen m, e.is_equal_iff k j, e.is_equal_iff j k)
    | inr other ↦
        let less : unseen (k ∷ seen) m < unseen seen m = unseen-cons k seen m h (rw other at p) in
        ground (arith, e.is_equal_iff k j, e.is_equal_iff j k)
  ]
