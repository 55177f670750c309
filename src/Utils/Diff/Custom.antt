-- ===== src/Utils/Diff/Custom.antt =====
-- DiffWithEqual, whose equality is the caller's.
use microservices_base.Prelude.{ℕ, suc, ◌≡◌, true, List, [], ◌∷◌, Bool, inl, inr, Bool-cases}
use microservices_base.Utils.Diff.{diff_with_equal_loop, diff_with_equal, patch, found_later}

-- Two slices of one length whose elements are the same or equal at each place.
pub data Agrees {ℓ} {A : Type ℓ} (equal : A → A → Bool) : List A → List A → Type ℓ where
  empty : Agrees equal [] []
  alike :
      {x y : A} {l m : List A} → equal x y ≡ true → Agrees equal l m → Agrees equal (x ∷ l) (y ∷ m)
  taken : {y : A} {l m : List A} → Agrees equal l m → Agrees equal (y ∷ l) (y ∷ m)

module _ {ℓ} {A : Type ℓ} (zero_value : A) (equal : A → A → Bool) where
  patch-diff_with_equal_loop :
      (old new : List A) (i j : ℕ)
      → Agrees equal (patch old (diff_with_equal_loop zero_value equal old new i j)) new
  unfolding diff_with_equal_loop patch
  patch-diff_with_equal_loop (x ∷ old) (y ∷ new) i j = elim (Bool-cases (equal x y)) [
    | inl same ↦
        rw (diff_with_equal_loop, same)
          (alike same (patch-diff_with_equal_loop old new (suc i) (suc j)))
    | inr other ↦ elim (Bool-cases (found_later equal x new)) [
      | inl later ↦
          rw (diff_with_equal_loop, other, later)
            (taken (patch-diff_with_equal_loop (x ∷ old) new i (suc j)))
      | inr never ↦
          rw (diff_with_equal_loop, other, never)
            (patch-diff_with_equal_loop old (y ∷ new) (suc i) j)
    ]
  ]
  patch-diff_with_equal_loop (x ∷ old) [] i j = patch-diff_with_equal_loop old [] (suc i) j
  patch-diff_with_equal_loop [] (y ∷ new) i j = taken (patch-diff_with_equal_loop [] new i (suc j))
  patch-diff_with_equal_loop [] [] i j = empty

  -- Patching the old slice with the differences that DiffWithEqual finds gives, place by place, the
  -- new slice's element or an element of the old slice that the given test takes for it.
  pub patch-diff_with_equal :
      (old new : List A) → Agrees equal (patch old (diff_with_equal zero_value equal old new)) new
  unfolding diff_with_equal
  patch-diff_with_equal old new = patch-diff_with_equal_loop old new 0 0
