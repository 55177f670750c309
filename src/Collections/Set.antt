-- ===== src/Collections/Set.antt =====
-- libs/go/src/collections/set.go: a set as a map to empty structs. A method that takes
-- the lock once is one step. Equals and the methods on two sets, which take several locks or, like
-- Union, none, are taken while no other goroutine changes the sets. The loops range over the map in
-- the order of its list.
mod Members
mod Build
mod Equal
mod Tests
use microservices_base.Prelude.{
  ℕ, suc, ◌+◌, Bool, true, false, not, List, [], ◌∷◌, map, length, is_some, if◌then◌else◌,
}
use microservices_base.Prelude.Eq.{Comparable, ◌==◌, comparable_nat}
use microservices_base.Prelude.Assoc.{lookup, insert, remove as delete_key}

pub record Set {ℓ} (T : Type ℓ) : Type ℓ where
  pub items : List (T × Unit {0})

module _ {ℓ} {T : Type ℓ} where
  abbrev pub new_set : Set T
  new_set = record { items = [] }

  unfoldable pub size : Set T → ℕ
  size s = length s.items

  unfoldable pub is_empty : Set T → Bool
  is_empty s = size s == 0

  unfoldable pub clear : Set T → Set T
  clear s = new_set

  -- The keys of a map, as a loop meets them.
  unfoldable pub keys : List (T × Unit {0}) → List T
  keys [] = []
  keys ((item, _) ∷ items) = item ∷ keys items

  unfoldable pub to_slice : Set T → List T
  to_slice s = keys s.items

module _ {ℓ} {T : Type ℓ} ⦃e : Comparable T⦄ where
  unfoldable pub add : T → Set T → Set T
  add item s = record { items = insert item tt s.items }

  unfoldable pub remove : T → Set T → Set T
  remove item s = record { items = delete_key item s.items }

  unfoldable pub contains : T → Set T → Bool
  contains item s = is_some (lookup item s.items)

  -- A loop that adds the items which pass a test to a result.
  unfoldable pub add_where : (T → Bool) → List T → Set T → Set T
  add_where test [] result = result
  add_where test (item ∷ items) result =
      add_where test items (if test item then add item result else result)

  unfoldable pub set_from : List T → Set T
  set_from items = add_where (λ _. true) items new_set

  unfoldable pub set_of : List T → Set T
  set_of elements = add_where (λ _. true) elements new_set

  unfoldable pub union : Set T → Set T → Set T
  union s other =
      add_where (λ _. true) (to_slice other) (add_where (λ _. true) (to_slice s) new_set)

  unfoldable pub intersection : Set T → Set T → Set T
  intersection s other = add_where (λ item. contains item other) (to_slice s) new_set

  unfoldable pub difference : Set T → Set T → Set T
  difference s other = add_where (λ item. not (contains item other)) (to_slice s) new_set

  unfoldable pub symmetric_difference : Set T → Set T → Set T
  symmetric_difference s other =
      add_where (λ item. not (contains item s)) (to_slice other)
        (add_where (λ item. not (contains item other)) (to_slice s) new_set)

  unfoldable pub clone : Set T → Set T
  clone s = add_where (λ _. true) (to_slice s) new_set

  unfoldable pub filter : Set T → (T → Bool) → Set T
  filter s predicate = add_where predicate (to_slice s) new_set

  -- The loop of IsSubset.
  unfoldable pub all_within : List T → Set T → Bool
  all_within [] other = true
  all_within (item ∷ items) other = if contains item other then all_within items other else false

  unfoldable pub is_subset : Set T → Set T → Bool
  is_subset s other = all_within (to_slice s) other

  unfoldable pub equals : Set T → Set T → Bool
  equals s other = if size s == size other then is_subset s other else false

  unfoldable pub is_superset : Set T → Set T → Bool
  is_superset s other = is_subset other s

unfoldable pub set_map {ℓ κ} :
    {T : Type ℓ} {U : Type κ} ⦃d : Comparable T⦄ ⦃e : Comparable U⦄ → Set T → (T → U) → Set U
set_map s fn = set_from (map fn (to_slice s))
