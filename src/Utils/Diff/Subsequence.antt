-- ===== src/Utils/Diff/Subsequence.antt =====
-- Subsequences, for the longest common subsequence of diff.go.
use mathlib.Core.List.{reverse, reverse_aux}
use microservices_base.Prelude.{◌+◌, ◌≡◌, List, [], ◌∷◌, length, arith}

pub data Subsequence {ℓ} {A : Type ℓ} : List A → List A → Type ℓ where
  done : Subsequence [] []
  skip : {x : A} {s l : List A} → Subsequence s l → Subsequence s (x ∷ l)
  keep : {x : A} {s l : List A} → Subsequence s l → Subsequence (x ∷ s) (x ∷ l)

module _ {ℓ} {A : Type ℓ} where
  pub Subsequence-nil : (l : List A) → Subsequence [] l
  Subsequence-nil [] = done
  Subsequence-nil (x ∷ l) = skip (Subsequence-nil l)

  pub Subsequence-refl : (l : List A) → Subsequence l l
  Subsequence-refl [] = done
  Subsequence-refl (x ∷ l) = keep (Subsequence-refl l)

  reverse_aux-Subsequence :
      {s l s' l' : List A}
      → Subsequence s l
      → Subsequence s' l'
      → Subsequence (reverse_aux s s') (reverse_aux l l')
  reverse_aux-Subsequence done q = q
  reverse_aux-Subsequence (skip p) q = reverse_aux-Subsequence p (skip q)
  reverse_aux-Subsequence (keep p) q = reverse_aux-Subsequence p (keep q)

  pub reverse-Subsequence : {s l : List A} → Subsequence s l → Subsequence (reverse s) (reverse l)
  reverse-Subsequence p = reverse_aux-Subsequence p done

  length-reverse_aux : (l r : List A) → length (reverse_aux l r) ≡ length l + length r
  length-reverse_aux [] r = omega arith
  length-reverse_aux (x ∷ l) r = omega (arith, length-reverse_aux l (x ∷ r))

  pub length-reverse : (l : List A) → length (reverse l) ≡ length l
  length-reverse l = omega (arith, length-reverse_aux l [])
