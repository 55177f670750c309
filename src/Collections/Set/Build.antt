-- ===== src/Collections/Set/Build.antt =====
-- Sets that are made by the operations, against predicates on the items.
use native.Mathlib.Omega.{arith}
use microservices_base.Prelude.{◌≡◌, refl, ◌∙◌, Bool, true, false, not, ◌&&◌, ◌||◌, List}
use microservices_base.Prelude.Eq.{Comparable, ◌==◌, member, comparable_nat}
use microservices_base.Prelude.Assoc.{lookup}
use microservices_base.Prelude.Keys.{NoRepeat, none_listed, NoRepeat-insert, NoRepeat-remove}
use microservices_base.Collections.Set.{
  Set, new_set, to_slice, add, remove, contains, add_where, set_from, union, intersection,
  difference, symmetric_difference, clone, filter, clear,
}
use microservices_base.Collections.Set.Members.{
  contains-add, contains-remove, member-to_slice, contains-add_where, NoRepeat-add_where,
}

-- A way to make a set by the operations.
pub data Made {ℓ} (T : Type ℓ) : Type ℓ where
  made_new : Made T
  made_from : List T → Made T
  adding removing : T → Made T → Made T
  clearing cloning : Made T → Made T
  filtering : (T → Bool) → Made T → Made T
  uniting intersecting subtracting parting : Made T → Made T → Made T

module _ {ℓ} {T : Type ℓ} ⦃e : Comparable T⦄ where
  abbrev pub make : Made T → Set T
  make made_new = new_set
  make (made_from items) = set_from items
  make (adding item m) = add item (make m)
  make (removing item m) = remove item (make m)
  make (clearing m) = clear (make m)
  make (cloning m) = clone (make m)
  make (filtering test m) = filter (make m) test
  make (uniting m n) = union (make m) (make n)
  make (intersecting m n) = intersection (make m) (make n)
  make (subtracting m n) = difference (make m) (make n)
  make (parting m n) = symmetric_difference (make m) (make n)

  -- Whether an item is in the set, by the algebra of predicates.
  abbrev pub holds : T → Made T → Bool
  holds x made_new = false
  holds x (made_from items) = member x items
  holds x (adding item m) = item == x || holds x m
  holds x (removing item m) = not (item == x) && holds x m
  holds x (clearing m) = false
  holds x (cloning m) = holds x m
  holds x (filtering test m) = holds x m && test x
  holds x (uniting m n) = holds x m || holds x n
  holds x (intersecting m n) = holds x m && holds x n
  holds x (subtracting m n) = holds x m && not (holds x n)
  holds x (parting m n) = holds x m && not (holds x n) || holds x n && not (holds x m)

  added :
      (x : T) (test : T → Bool) (s result : Set T)
      → contains x (add_where test (to_slice s) result)
        ≡ (contains x result || (contains x s && test x))
  added x test s result =
      contains-add_where x test (to_slice s) result ∙ rw (member-to_slice x s) refl

  none_in_new : (x : T) → contains x new_set ≡ false
  unfolding contains lookup
  none_in_new x = refl

  gathered :
      (x : T) (test : T → Bool) (s : Set T)
      → contains x (add_where test (to_slice s) new_set) ≡ (contains x s && test x)
  gathered x test s = added x test s new_set ∙ rw (none_in_new x) refl

  -- Whatever operations make a set, it contains the items that the algebra of predicates says.
  pub contains-make : (x : T) (m : Made T) → contains x (make m) ≡ holds x m
  unfolding set_from union intersection difference symmetric_difference clone filter clear
  contains-make x made_new = none_in_new x
  contains-make x (made_from items) =
      contains-add_where x (λ _. true) items new_set ∙ rw (none_in_new x) (ground arith)
  contains-make x (adding item m) = contains-add x item (make m) ∙ rw (contains-make x m) refl
  contains-make x (removing item m) = contains-remove x item (make m) ∙ rw (contains-make x m) refl
  contains-make x (clearing m) = none_in_new x
  contains-make x (cloning m) =
      gathered x (λ _. true) (make m) ∙ rw (contains-make x m) (ground arith)
  contains-make x (filtering test m) = gathered x test (make m) ∙ rw (contains-make x m) refl
  contains-make x (uniting m n) =
      added x (λ _. true) (make n) (add_where (λ _. true) (to_slice (make m)) new_set)
      ∙ rw (gathered x (λ _. true) (make m), contains-make x m, contains-make x n) (ground arith)
  contains-make x (intersecting m n) =
      gathered x (λ i. contains i (make n)) (make m)
      ∙ rw (contains-make x m, contains-make x n) refl
  contains-make x (subtracting m n) =
      gathered x (λ i. not (contains i (make n))) (make m)
      ∙ rw (contains-make x m, contains-make x n) refl
  contains-make x (parting m n) =
      added x (λ i. not (contains i (make m))) (make n)
        (add_where (λ i. not (contains i (make n))) (to_slice (make m)) new_set)
      ∙ rw
          (
            gathered x (λ i. not (contains i (make n))) (make m),
            contains-make x m,
            contains-make x n,
          )
          refl

  pub NoRepeat-make : (m : Made T) → NoRepeat (make m).items
  unfolding set_from union intersection difference symmetric_difference clone filter clear add
      remove
  NoRepeat-make made_new = none_listed
  NoRepeat-make (made_from items) = NoRepeat-add_where (λ _. true) items new_set none_listed
  NoRepeat-make (adding item m) = NoRepeat-insert item tt (NoRepeat-make m)
  NoRepeat-make (removing item m) = NoRepeat-remove item (NoRepeat-make m)
  NoRepeat-make (clearing m) = none_listed
  NoRepeat-make (cloning m) = NoRepeat-add_where (λ _. true) (to_slice (make m)) new_set none_listed
  NoRepeat-make (filtering test m) = NoRepeat-add_where test (to_slice (make m)) new_set none_listed
  NoRepeat-make (uniting m n) =
      NoRepeat-add_where (λ _. true) (to_slice (make n))
        (add_where (λ _. true) (to_slice (make m)) new_set)
        (NoRepeat-add_where (λ _. true) (to_slice (make m)) new_set none_listed)
  NoRepeat-make (intersecting m n) =
      NoRepeat-add_where (λ i. contains i (make n)) (to_slice (make m)) new_set none_listed
  NoRepeat-make (subtracting m n) =
      NoRepeat-add_where (λ i. not (contains i (make n))) (to_slice (make m)) new_set none_listed
  NoRepeat-make (parting m n) =
      NoRepeat-add_where (λ i. not (contains i (make m))) (to_slice (make n))
        (add_where (λ i. not (contains i (make n))) (to_slice (make m)) new_set)
        (NoRepeat-add_where (λ i. not (contains i (make n))) (to_slice (make m)) new_set
          none_listed)
