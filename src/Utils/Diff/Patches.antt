-- ===== src/Utils/Diff/Patches.antt =====
-- Patch and Diff, whatever common subsequence the changes are built from.
use microservices_base.Prelude.{ℕ, suc, ◌≡◌, refl, List, [], ◌∷◌, ap, inl, inr, Bool-cases}
use microservices_base.Prelude.Eq.{Comparable, ◌==◌, eq_of_==}
use microservices_base.Utils.Diff.{diff_loop, diff, patch, longest_common_subsequence}

module _ {ℓ} {A : Type ℓ} ⦃e : Comparable A⦄ (zero_value : A) where
  patch-diff_loop :
      (old new lcs : List A) (i j : ℕ) → patch old (diff_loop zero_value old new lcs i j) ≡ new
  unfolding diff_loop patch
  patch-diff_loop (x ∷ old) (y ∷ new) (c ∷ lcs) i j = elim (Bool-cases (x == c)) [
    | inl ours ↦ elim (Bool-cases (y == c)) [
      | inl both ↦
          rw (diff_loop, ours, both)
            (rw (eq_of_== x c ours, eq_of_== y c both)
              (ap (◌∷◌ c) (patch-diff_loop old new lcs (suc i) (suc j))))
      | inr theirs ↦
          rw (diff_loop, ours, theirs, ours)
            (ap (◌∷◌ y) (patch-diff_loop (x ∷ old) new (c ∷ lcs) i (suc j)))
    ]
    | inr gone ↦ rw (diff_loop, gone, gone) (patch-diff_loop old (y ∷ new) (c ∷ lcs) (suc i) j)
  ]
  patch-diff_loop (x ∷ old) (y ∷ new) [] i j = patch-diff_loop old (y ∷ new) [] (suc i) j
  patch-diff_loop (x ∷ old) [] lcs i j = patch-diff_loop old [] lcs (suc i) j
  patch-diff_loop [] (y ∷ new) lcs i j = ap (◌∷◌ y) (patch-diff_loop [] new lcs i (suc j))
  patch-diff_loop [] [] lcs i j = refl

  -- Patching the old slice with the differences that Diff finds gives the new slice.
  pub patch-diff : (old new : List A) → patch old (diff zero_value old new) ≡ new
  unfolding diff
  patch-diff old new = patch-diff_loop old new (longest_common_subsequence old new) 0 0
