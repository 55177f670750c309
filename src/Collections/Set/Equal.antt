-- ===== src/Collections/Set/Equal.antt =====
-- IsSubset and Equals.
use native.Mathlib.Omega.{arith}
use microservices_base.Prelude.{
  ◌≡◌, ◌↔◌, refl, sym, ◌∙◌, suc, ◌≤◌, Bool, true, false, List, [], ◌∷◌, length, is_some, inl, inr,
  Bool-cases,
}
use microservices_base.Prelude.Eq.{
  Comparable, ◌==◌, member, eq_of_==, ==_refl, ==_of_ne, eq-cases, comparable_nat,
}
use microservices_base.Prelude.Assoc.{lookup, lookup-remove, remove as delete_key}
use microservices_base.Prelude.Keys.{
  Absent, absent_nil, absent_cons, NoRepeat, none_listed, one_listed, lookup-Absent,
}
use microservices_base.Collections.Set.{
  Set, to_slice, contains, all_within, is_subset, equals, size,
}
use microservices_base.Collections.Set.Members.{member-to_slice}
use microservices_base.Collections.Set.Build.{Made, make, holds, contains-make, NoRepeat-make}

both_or_neither : (b c : Bool) → (b ≡ true → c ≡ true) → (c ≡ true → b ≡ true) → b ≡ c
both_or_neither true c f g = sym (f refl)
both_or_neither false true f g = g refl
both_or_neither false false f g = refl

module _ {ℓ} {T : Type ℓ} ⦃e : Comparable T⦄ where
  all_within_iff :
      (items : List T) (other : Set T)
      → (all_within items other ≡ true)
        ↔ ((x : T) → member x items ≡ true → contains x other ≡ true)
  unfolding all_within
  all_within_iff [] other = (λ h x m. cc, λ f. refl)
  all_within_iff (item ∷ items) other = (
    λ h x m. elim (Bool-cases (item == x)) [
      | inl same ↦ rw (sym (eq_of_== item x same)) (ground arith)
      | inr differ ↦ (all_within_iff items other).0 (ground arith) x (ground arith)
    ],
    λ f.
        rw (all_within, f item (rw (==_refl item) refl))
          ((all_within_iff items other).1 (λ x m. f x (ground arith))),
  )

  -- IsSubset holds exactly where the other set contains each item.
  is_subset_iff :
      (s other : Set T)
      → (is_subset s other ≡ true) ↔ ((x : T) → contains x s ≡ true → contains x other ≡ true)
  unfolding is_subset
  is_subset_iff s other = (
    λ h x c. (all_within_iff (to_slice s) other).0 h x (member-to_slice x s ∙ c),
    λ f. (all_within_iff (to_slice s) other).1 (λ x m. f x (sym (member-to_slice x s) ∙ m)),
  )

  length_shorter : (k : T) (m : List (T × Unit {0})) → length (delete_key k m) ≤ length m
  unfolding delete_key
  length_shorter k [] = omega arith
  length_shorter k ((j, v) ∷ m) = ground (arith, length_shorter k m)

  length-delete_key :
      (k : T) (m : List (T × Unit {0}))
      → is_some (lookup k m) ≡ true
      → suc (length (delete_key k m)) ≤ length m
  unfolding delete_key lookup
  length-delete_key k [] h = cc
  length-delete_key k ((j, v) ∷ m) h =
      let ih = length-delete_key k m in ground (arith, length_shorter k m)

  listed_not {μ} :
      {x : T} {m : List (T × Unit {0})} {P : Type μ} → Absent x m → is_some (lookup x m) ≡ true → P
  listed_not a h = cc (lookup-Absent a)

  -- A map with no key twice is no longer than one that has its keys, and shorter than one that has a
  -- key more.
  length-le :
      {m : List (T × Unit {0})} (n : List (T × Unit {0}))
      → NoRepeat m
      → ((x : T) → is_some (lookup x m) ≡ true → is_some (lookup x n) ≡ true)
      → length m ≤ length n
  unfolding lookup
  length-le n none_listed f = omega arith
  length-le n (one_listed {k} {m} a r) f = omega (
    arith,
    length-le (delete_key k n) r (λ x h. elim (eq-cases k x) [
      | inl same ↦ listed_not (rw same at a) h
      | inr other ↦
          rw (lookup-remove k x n, ==_of_ne k x other) (f x (rw (lookup, ==_of_ne k x other) h))
    ]),
    length-delete_key k n (f k (rw (lookup, ==_refl k) refl)),
  )

  Absent-lookup : (k : T) (m : List (T × Unit {0})) → is_some (lookup k m) ≡ false → Absent k m
  unfolding lookup
  Absent-lookup k [] h = absent_nil
  Absent-lookup k ((j, v) ∷ m) h = elim (eq-cases j k) [
    | inl same ↦ cc (rw (lookup, same, ==_refl k) at h)
    | inr other ↦ absent_cons other (Absent-lookup k m (rw (lookup, ==_of_ne j k other) at h))
  ]

  length-lt :
      {m : List (T × Unit {0})} (n : List (T × Unit {0})) (x : T)
      → NoRepeat m
      → ((y : T) → is_some (lookup y m) ≡ true → is_some (lookup y n) ≡ true)
      → is_some (lookup x m) ≡ false
      → is_some (lookup x n) ≡ true
      → suc (length m) ≤ length n
  unfolding lookup
  length-lt {m} n x r f out has =
      length-le {m = (x, tt) ∷ m} n (one_listed (Absent-lookup x m out) r) (λ y h.
        elim (eq-cases x y) [
          | inl same ↦ rw (sym same) has
          | inr other ↦ f y (rw (lookup, ==_of_ne x y other) at h)
        ])

  length-contains :
      (s other : Set T)
      → NoRepeat s.items
      → ((x : T) → contains x s ≡ true → contains x other ≡ true)
      → length s.items ≤ length other.items
  unfolding contains
  length-contains s other r f = length-le other.items r f

  equals_iff_parts :
      (s other : Set T)
      → (equals s other ≡ true)
        ↔ ((length s.items ≡ length other.items) × (is_subset s other ≡ true))
  unfolding equals size
  equals_iff_parts s other = (λ h. (ground arith, ground arith), λ (l, sub). ground arith)

  -- The items of a set that an equal number of items has.
  superset :
      (s other : Set T) (x : T)
      → NoRepeat s.items
      → length s.items ≡ length other.items
      → ((y : T) → contains y s ≡ true → contains y other ≡ true)
      → contains x other ≡ true
      → contains x s ≡ true
  unfolding contains
  superset s other x r same f has = elim (Bool-cases (is_some (lookup x s.items))) [
    | inl here ↦ here
    | inr missing ↦ ground (arith, length-lt other.items x r f missing has)
  ]

  equals_iff :
      (s other : Set T)
      → NoRepeat s.items
      → NoRepeat other.items
      → (equals s other ≡ true) ↔ ((x : T) → contains x s ≡ contains x other)
  equals_iff s other r q = (
    λ h x.
        let (same, sub) = (equals_iff_parts s other).0 h in
        let within = (is_subset_iff s other).0 sub in
        both_or_neither (contains x s) (contains x other) (within x)
          (superset s other x r same within),
    λ f. (equals_iff_parts s other).1 (
        (
          omega (
            arith,
            length-contains s other r (λ x c. sym (f x) ∙ c),
            length-contains other s q (λ x c. f x ∙ c),
          ),
          (is_subset_iff s other).1 (λ x c. sym (f x) ∙ c),
        )),
  )

  -- Equals tells whether two sets, whatever operations made them, have the same items.
  pub equals-make_iff :
      (m n : Made T) → (equals (make m) (make n) ≡ true) ↔ ((x : T) → holds x m ≡ holds x n)
  equals-make_iff m n =
      let same = equals_iff (make m) (make n) (NoRepeat-make m) (NoRepeat-make n) in
      (
        λ h x. sym (contains-make x m) ∙ same.0 h x ∙ contains-make x n,
        λ f. same.1 (λ x. contains-make x m ∙ f x ∙ sym (contains-make x n)),
      )
