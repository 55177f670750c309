-- ===== src/Prelude/Sums.antt =====
-- Sums of weights over the members of a list.
use native.Mathlib.Decide.{dec_lt}
use microservices_base.Prelude.{
  ℕ, zero, suc, ◌+◌, ◌≤◌, ◌<◌, ◌≡◌, refl, some, List, [], ◌∷◌, ◌++◌, arith, get_elem?, set,
  replicate,
}

module _ {ℓ} {A : Type ℓ} (weight : A → ℕ) where
  unfoldable pub total : List A → ℕ
  total [] = 0
  total (a ∷ as') = weight a + total as'

  -- The sum after one member changed.
  pub total-set :
      (xs : List A) (i : ℕ) (a : A) {b : A}
      → get_elem? xs i ≡ some b
      → total (set xs i a) + weight b ≡ total xs + weight a
  unfolding total
  total-set [] i a h = ground arith
  total-set (x ∷ xs) zero a h = ground arith
  total-set (x ∷ xs) (suc i) a h = omega (arith, total-set xs i a h)

  pub total-replicate : (n : ℕ) (a : A) → weight a ≡ 0 → total (replicate n a) ≡ 0
  unfolding total
  total-replicate zero a h = refl
  total-replicate (suc n) a h = omega (arith, h, total-replicate n a h)

  pub total-append : (xs ys : List A) → total (xs ++ ys) ≡ total xs + total ys
  unfolding total
  total-append [] ys = omega arith
  total-append (x ∷ xs) ys = omega (arith, total-append xs ys)

  pub weight-le-total :
      (xs : List A) (i : ℕ) {b : A} → get_elem? xs i ≡ some b → weight b ≤ total xs
  unfolding total
  weight-le-total [] i h = cc
  weight-le-total (x ∷ xs) zero h = ground arith
  weight-le-total (x ∷ xs) (suc i) h = omega (arith, weight-le-total xs i h)

-- A sum is monotone in the weights.
pub total-le {ℓ} :
    {A : Type ℓ} (w v : A → ℕ) → ((a : A) → w a ≤ v a) → (xs : List A) → total w xs ≤ total v xs
unfolding total
total-le w v h [] = omega arith
total-le w v h (x ∷ xs) = omega (arith, h x, total-le w v h xs)

-- A positive sum has a member with a positive weight.
pub total_pos {ℓ} :
    {A : Type ℓ} (w : A → ℕ) (xs : List A)
    → 0 < total w xs
    → (i : ℕ) × (a : A) × (get_elem? xs i ≡ some a) × (0 < w a)
unfolding total
total_pos w [] h = absurd (omega arith)
total_pos w (x ∷ xs) h = elim (dec_lt 0 (w x)) [
  | yes here ↦ (0, x, refl, here)
  | no not_here ↦ let (i, a, at_i, there) = total_pos w xs (omega arith) in (suc i, a, at_i, there)
]

pub total-idle {ℓ} :
    {A : Type ℓ} (w : A → ℕ) (a : A) (xs : List A)
    → ((i : ℕ) (b : A) → get_elem? xs i ≡ some b → b ≡ a)
    → w a ≡ 0
    → total w xs ≡ 0
unfolding total
total-idle w a [] h e = refl
total-idle w a (x ∷ xs) h e = ground (arith, h 0 x refl, total-idle w a xs (λ i b. h (suc i) b) e)
