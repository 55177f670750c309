-- ===== src/Collections/Set/Members.antt =====
-- Which items the operations leave in a set.
use native.Mathlib.Omega.{arith}
use microservices_base.Prelude.{
  ◌≡◌, refl, sym, ◌∙◌, Bool, true, false, not, ◌&&◌, ◌||◌, List, [], ◌∷◌, is_some, inl, inr,
  Bool-cases,
}
use microservices_base.Prelude.Eq.{Comparable, ◌==◌, member, eq_of_==}
use microservices_base.Prelude.Assoc.{lookup, lookup-insert, lookup-remove}
use microservices_base.Prelude.Keys.{NoRepeat, NoRepeat-insert}
use microservices_base.Collections.Set.{Set, keys, to_slice, add, remove, contains, add_where}

module _ {ℓ} {T : Type ℓ} ⦃e : Comparable T⦄ where
  pub contains-add :
      (x item : T) (s : Set T) → contains x (add item s) ≡ (item == x || contains x s)
  unfolding contains add
  contains-add x item s = ground (arith, lookup-insert item x tt s.items)

  pub contains-remove :
      (x item : T) (s : Set T) → contains x (remove item s) ≡ (not (item == x) && contains x s)
  unfolding contains remove
  contains-remove x item s = ground (arith, lookup-remove item x s.items)

  member-keys : (x : T) (m : List (T × Unit {0})) → member x (keys m) ≡ is_some (lookup x m)
  unfolding keys lookup
  member-keys x [] = refl
  member-keys x ((k, v) ∷ m) = ground (arith, member-keys x m)

  pub member-to_slice : (x : T) (s : Set T) → member x (to_slice s) ≡ contains x s
  unfolding to_slice contains
  member-to_slice x s = member-keys x s.items

  kept :
      (x : T) (test : T → Bool) (item : T) (items : List T) (result : Set T)
      → test item ≡ true
      → (contains x (add item result) || (member x items && test x))
        ≡ (contains x result || (member x (item ∷ items) && test x))
  kept x test item items result passes = elim (Bool-cases (item == x)) [
    | inl same ↦
        let here : test x ≡ true = rw (sym (eq_of_== item x same)) passes in
        ground (arith, contains-add x item result)
    | inr other ↦ ground (arith, contains-add x item result)
  ]

  passed :
      (x : T) (test : T → Bool) (item : T) (items : List T) (result : Set T)
      → test item ≡ false
      → (contains x result || (member x items && test x))
        ≡ (contains x result || (member x (item ∷ items) && test x))
  passed x test item items result fails = elim (Bool-cases (item == x)) [
    | inl same ↦ let here : test x ≡ false = rw (sym (eq_of_== item x same)) fails in ground arith
    | inr other ↦ ground arith
  ]

  pub contains-add_where :
      (x : T) (test : T → Bool) (items : List T) (result : Set T)
      → contains x (add_where test items result) ≡ (contains x result || (member x items && test x))
  unfolding add_where
  contains-add_where x test [] result = ground arith
  contains-add_where x test (item ∷ items) result = elim (Bool-cases (test item)) [
    | inl passes ↦
        rw (add_where, passes)
          (contains-add_where x test items (add item result) ∙ kept x test item items result passes)
    | inr fails ↦
        rw (add_where, fails)
          (contains-add_where x test items result ∙ passed x test item items result fails)
  ]

  pub NoRepeat-add_where :
      (test : T → Bool) (items : List T) (result : Set T)
      → NoRepeat result.items
      → NoRepeat (add_where test items result).items
  unfolding add_where add
  NoRepeat-add_where test [] result r = r
  NoRepeat-add_where test (item ∷ items) result r = elim (Bool-cases (test item)) [
    | inl passes ↦
        rw (add_where, passes)
          (NoRepeat-add_where test items (add item result) (NoRepeat-insert item tt r))
    | inr fails ↦ rw (add_where, fails) (NoRepeat-add_where test items result r)
  ]
