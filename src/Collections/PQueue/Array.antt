-- ===== src/Collections/PQueue/Array.antt =====
-- Reads and swaps of a slice, for the heap.
use mathlib.Core.List.{Perm}
use mathlib.Core.List.Perm
use native.Mathlib.Omega.{arith}
use microservices_base.Prelude.{
  Bool, ℕ, zero, suc, ◌<◌, ◌≡◌, ◌≢◌, refl, ◌∙◌, ap, some, List, [], ◌∷◌, ◌++◌, take, ◌==◌, length,
  length-set, get_elem?, get_or, set, if◌then◌else◌,
}
use microservices_base.Collections.PQueue.{less_at, swap_at}

module _ {ℓ} {A : Type ℓ} (d : A) where
  pub get_elem?-get_or : (h : List A) (i : ℕ) → i < length h → get_elem? h i ≡ some (get_or h i d)
  get_elem?-get_or [] i lt = absurd (omega arith)
  get_elem?-get_or (x ∷ h) zero lt = refl
  get_elem?-get_or (x ∷ h) (suc i) lt = get_elem?-get_or h i (omega arith)

  pub get_or-append : (h l : List A) (i : ℕ) → i < length h → get_or (h ++ l) i d ≡ get_or h i d
  get_or-append [] l i lt = absurd (omega arith)
  get_or-append (x ∷ h) l zero lt = refl
  get_or-append (x ∷ h) l (suc i) lt = get_or-append h l i (omega arith)

  pub get_or-take : (n : ℕ) (h : List A) (i : ℕ) → i < n → get_or (take n h) i d ≡ get_or h i d
  get_or-take zero h i lt = absurd (omega arith)
  get_or-take (suc n) [] i lt = refl
  get_or-take (suc n) (x ∷ h) zero lt = refl
  get_or-take (suc n) (x ∷ h) (suc i) lt = get_or-take n h i (omega arith)

  pub take-concat : (n : ℕ) (h : List A) → length h ≡ suc n → take n h ++ get_or h n d ∷ [] ≡ h
  take-concat n [] e = absurd (omega arith)
  take-concat zero (x ∷ []) e = refl
  take-concat zero (x ∷ y ∷ h) e = absurd (omega arith)
  take-concat (suc n) (x ∷ h) e = ap (◌∷◌ x) (take-concat n h (omega arith))

  get_or-set :
      (h : List A) (i j : ℕ) (v : A)
      → i < length h
      → get_or (set h i v) j d ≡ (if i == j then v else get_or h j d)
  get_or-set [] i j v lt = absurd (omega arith)
  get_or-set (x ∷ h) zero zero v lt = refl
  get_or-set (x ∷ h) zero (suc j) v lt = ground arith
  get_or-set (x ∷ h) (suc i) zero v lt = ground arith
  get_or-set (x ∷ h) (suc i) (suc j) v lt = get_or-set h i j v (omega arith) ∙ ground arith

  write-perm : (h : List A) (i : ℕ) (v : A) → i < length h → Perm (get_or h i d ∷ set h i v) (v ∷ h)
  write-perm [] i v lt = absurd (omega arith)
  write-perm (x ∷ h) zero v lt = Perm.swap v x h
  write-perm (x ∷ h) (suc i) v lt =
      Perm.trans (Perm.swap x (get_or h i d) (set h i v))
        (Perm.trans (Perm.cons x (write-perm h i v (omega arith))) (Perm.swap v x h))

  unfoldable pub swapped : List A → ℕ → ℕ → List A
  swapped h i j = set (set h i (get_or h j d)) j (get_or h i d)

  pub length-swapped : (h : List A) (i j : ℕ) → length (swapped h i j) ≡ length h
  unfolding swapped
  length-swapped h i j =
      length-set (set h i (get_or h j d)) j (get_or h i d) ∙ length-set h i (get_or h j d)

  module _ (h : List A) (i j : ℕ) (hi : i < length h) (hj : j < length h) where
    pub get_or-swapped :
        (c : ℕ)
        → get_or (swapped h i j) c d
          ≡ (if j == c then get_or h i d else if i == c then get_or h j d else get_or h c d)
    unfolding swapped
    get_or-swapped c =
        rw
          (
            get_or-set (set h i (get_or h j d)) j c (get_or h i d)
                (omega (arith, length-set h i (get_or h j d))),
            get_or-set h i c (get_or h j d) hi,
          )
          refl

    -- The element that the first write leaves at `j`.
    kept : get_or (set h i (get_or h j d)) j d ≡ get_or h j d
    kept = ground (arith, get_or-set h i j (get_or h j d) hi)

    pub swapped-perm : Perm (swapped h i j) h
    unfolding swapped
    swapped-perm =
        let g = set h i (get_or h j d) in
        let second = write-perm g j (get_or h i d) (omega (arith, length-set h i (get_or h j d))) in
        Perm.cons_inv (Perm.trans (rw kept at second) (write-perm h i (get_or h j d) hi))

    pub swap_at-swapped : swap_at h i j ≡ some (swapped h i j)
    unfolding swap_at swapped
    swap_at-swapped = rw (swap_at, get_elem?-get_or h i hi, get_elem?-get_or h j hj) refl

    pub less_at-some :
        (less : A → A → Bool) → less_at less h i j ≡ some (less (get_or h i d) (get_or h j d))
    unfolding less_at
    less_at-some less = rw (less_at, get_elem?-get_or h i hi, get_elem?-get_or h j hj) refl

    pub swapped_second : get_or (swapped h i j) j d ≡ get_or h i d
    swapped_second = ground (arith, get_or-swapped j)

    pub swapped_first : i ≢ j → get_or (swapped h i j) i d ≡ get_or h j d
    swapped_first n = ground (arith, get_or-swapped i)

    pub swapped_other : (c : ℕ) → c ≢ i → c ≢ j → get_or (swapped h i j) c d ≡ get_or h c d
    swapped_other c n m = ground (arith, get_or-swapped c)
