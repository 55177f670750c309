-- ===== src/Utils/Merge/Sort.antt =====
-- MergeSliceOrdered as a sort.
use mathlib.Core.List.{
  reverse, reverse_aux, reverse-reverse, Perm, reverse_perm, append-nil, perm_middle,
}
use mathlib.Core.List.Perm
use native.Mathlib.Omega.{arith}
use microservices_base.Prelude.{
  ◌≡◌, refl, ap, ◌∙◌, Bool, true, false, List, [], ◌∷◌, ◌++◌, inl, inr, Bool-cases, subst,
}
use microservices_base.Prelude.Order.{
  StrictWeakOrder, tied, only, All, all_nil, all_cons, All-map, SortedBy, sorted_nil, sorted_cons,
  flip, only-cons, reverse-SortedBy, only-reverse,
}
use microservices_base.Utils.Merge.{slices, sift_back, sort_loop, merge_slice_ordered}

-- Sorted, with the elements of the input, and tied elements in their order.
pub record StableSort {ℓ} {A : Type ℓ} (less : A → A → Bool) (input sorted : List A) : Type ℓ where
  pub in_order : SortedBy less sorted
  pub same_elements : Perm sorted input
  pub stable : (z : A) → only (tied less z) sorted ≡ only (tied less z) input

module _ {ℓ} {A : Type ℓ} (less : A → A → Bool) where
  sift_back-perm : (x : A) (done : List A) → Perm (sift_back less x done) (x ∷ done)
  unfolding sift_back
  sift_back-perm x [] = Perm.rfl
  sift_back-perm x (y ∷ done) = elim (Bool-cases (less x y)) [
    | inl below ↦
        rw (sift_back, below)
          (Perm.trans (Perm.cons y (sift_back-perm x done)) (Perm.swap x y done))
    | inr settled ↦ rw (sift_back, settled) Perm.rfl
  ]

  sort_loop-perm : (rest done : List A) → Perm (sort_loop less done rest) (rest ++ done)
  unfolding sort_loop
  sort_loop-perm [] done = Perm.rfl
  sort_loop-perm (x ∷ rest) done =
      Perm.trans (sort_loop-perm rest (sift_back less x done))
        (Perm.trans (Perm.append_left rest (sift_back-perm x done)) (perm_middle rest done))

  sift_back-All {κ} :
      {P : A → Type κ} (x : A) (done : List A) → P x → All P done → All P (sift_back less x done)
  unfolding sift_back
  sift_back-All x [] p ps = all_cons p all_nil
  sift_back-All x (y ∷ done) p (all_cons q qs) = elim (Bool-cases (less x y)) [
    | inl below ↦ rw (sift_back, below) (all_cons q (sift_back-All x done p qs))
    | inr settled ↦ rw (sift_back, settled) (all_cons p (all_cons q qs))
  ]

  module _ (o : StrictWeakOrder less) where
    sift_back-SortedBy :
        (x : A) (done : List A)
        → SortedBy (flip less) done
        → SortedBy (flip less) (sift_back less x done)
    unfolding sift_back
    sift_back-SortedBy x [] s = sorted_cons all_nil sorted_nil
    sift_back-SortedBy x (y ∷ done) (sorted_cons head s) = elim (Bool-cases (less x y)) [
      | inl below ↦
          rw (sift_back, below)
            (sorted_cons (sift_back-All x done (o.asymmetric x y below) head)
              (sift_back-SortedBy x done s))
      | inr settled ↦
          rw (sift_back, settled)
            (sorted_cons (all_cons settled (All-map (λ z. o.neg_transitive x y z settled) head))
              (sorted_cons head s))
    ]

    sort_loop-SortedBy :
        (rest done : List A)
        → SortedBy (flip less) done
        → SortedBy (flip less) (sort_loop less done rest)
    unfolding sort_loop
    sort_loop-SortedBy [] done s = s
    sort_loop-SortedBy (x ∷ rest) done s =
        sort_loop-SortedBy rest (sift_back less x done) (sift_back-SortedBy x done s)

    -- Two elements tied with a third are not less than each other.
    tied-not-less : (z x y : A) → tied less z x ≡ true → tied less z y ≡ true → less x y ≡ false
    tied-not-less z x y p q = o.neg_transitive x z y (ground arith) (ground arith)

    only-sift_back :
        (z x : A) (done : List A)
        → only (tied less z) (sift_back less x done) ≡ only (tied less z) (x ∷ done)
    unfolding sift_back
    only-sift_back z x [] = refl
    only-sift_back z x (y ∷ done) =
        let p = tied less z in
        grind (
          arith,
          tied-not-less z x y,
          only-sift_back z x done,
          only-cons p x done,
          only-cons p x (y ∷ done),
          only-cons p y done,
          only-cons p y (sift_back less x done),
        )

    only-sort_loop :
        (z : A) (rest done : List A)
        → only (tied less z) (sort_loop less done rest)
          ≡ reverse_aux (only (tied less z) rest) (only (tied less z) done)
    unfolding sort_loop
    only-sort_loop z [] done = refl
    only-sort_loop z (x ∷ rest) done =
        only-sort_loop z rest (sift_back less x done)
        ∙ grind (
          arith,
          only-sift_back z x done,
          only-cons (tied less z) x done,
          only-cons (tied less z) x rest,
        )

    -- With a strict weak order MergeSliceOrdered sorts the elements of the slices, in a row, and
    -- keeps tied elements in their order.
    pub merge_slice_ordered-StableSort :
        (ss : List (List A)) → StableSort less (slices ss) (merge_slice_ordered less ss)
    unfolding merge_slice_ordered
    merge_slice_ordered-StableSort ss = record {
      in_order = reverse-SortedBy (sort_loop-SortedBy (slices ss) [] sorted_nil);
      same_elements = Perm.trans (reverse_perm (sort_loop less [] (slices ss))) (
          subst (Perm (sort_loop less [] (slices ss))) (append-nil (slices ss))
            (sort_loop-perm (slices ss) []));
      stable = λ z.
          only-reverse (tied less z) (sort_loop less [] (slices ss))
          ∙ ap reverse (only-sort_loop z (slices ss) [])
          ∙ reverse-reverse (only (tied less z) (slices ss));
    }
