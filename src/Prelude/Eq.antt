-- ===== src/Prelude/Eq.antt =====
-- Equality tests as an interface, for types whose values are equal exactly if `==` says so: Go's
-- `comparable` without floating-point numbers, whose NaN differs from itself, and without
-- interfaces, whose comparison can panic.
use native.Mathlib.Omega.{arith}
use text.Mathlib.Text.{◌==◌ as str_eq}
use text.Mathlib.TextEquality.{eq_iff}
use microservices_base.Prelude.{
  ℕ, ◌≡◌, ◌≢◌, refl, ◌↔◌, Bool, true, false, ◌||◌, ◌==◌ as nat_beq, ==_iff, String, List, [], ◌∷◌,
  ◌++◌, Bool-cases, inl, inr, ◌⊎◌, if◌then◌else◌,
}

-- A type whose values `==` compares.
pub record Comparable {ℓ} (A : Type ℓ) : Type ℓ where
  pub is_equal : A → A → Bool
  pub is_equal_iff : (a b : A) → (is_equal a b ≡ true) ↔ (a ≡ b)

instance abbrev pub comparable_string : Comparable String
comparable_string = record { is_equal = str_eq; is_equal_iff = eq_iff }

instance abbrev pub comparable_nat : Comparable ℕ
comparable_nat = record { is_equal_iff = ==_iff; is_equal = nat_beq }

module _ {ℓ} {A : Type ℓ} ⦃e : Comparable A⦄ where
  abbrev pub equal_lists : List A → List A → Bool
  equal_lists [] [] = true
  equal_lists [] (y ∷ m) = false
  equal_lists (x ∷ l) [] = false
  equal_lists (x ∷ l) (y ∷ m) = if e.is_equal x y then equal_lists l m else false

  pub equal_lists_iff : (l m : List A) → (equal_lists l m ≡ true) ↔ (l ≡ m)
  equal_lists_iff [] [] = (λ h. refl, λ h. refl)
  equal_lists_iff [] (y ∷ m) = (λ h. cc, λ h. cc)
  equal_lists_iff (x ∷ l) [] = (λ h. cc, λ h. cc)
  equal_lists_iff (x ∷ l) (y ∷ m) = grind (arith, e.is_equal_iff x y, equal_lists_iff l m)

  instance abbrev pub comparable_list : Comparable (List A)
  comparable_list = record { is_equal = equal_lists; is_equal_iff = equal_lists_iff }

infix 50 ◌==◌
abbrev pub ◌==◌ {ℓ} : {K : Type ℓ} ⦃c : Comparable K⦄ → K → K → Bool
◌==◌ ⦃c⦄ x y = c.is_equal x y

module _ {ℓ} {A : Type ℓ} ⦃e : Comparable A⦄ where
  pub ==_refl : (a : A) → (a == a) ≡ true
  ==_refl a = (e.is_equal_iff a a).1 refl

  pub eq_of_== : (a b : A) → (a == b) ≡ true → a ≡ b
  eq_of_== a b h = (e.is_equal_iff a b).0 h

  pub ==_of_ne : (a b : A) → a ≢ b → (a == b) ≡ false
  ==_of_ne a b h = elim (Bool-cases (a == b)) [
    | inl same ↦ absurd (h (eq_of_== a b same))
    | inr other ↦ other
  ]

  pub ne_of_== : (a b : A) → (a == b) ≡ false → a ≢ b
  ne_of_== a b h p = cc ((e.is_equal_iff a b).1 p)

  pub eq-cases : (a b : A) → (a ≡ b) ⊎ (a ≢ b)
  eq-cases a b = elim (Bool-cases (a == b)) [
    | inl same ↦ inl (eq_of_== a b same)
    | inr other ↦ inr (ne_of_== a b other)
  ]

  -- Whether a list holds the element.
  abbrev pub member : A → List A → Bool
  member a [] = false
  member a (x ∷ xs) = x == a || member a xs

module _ {ℓ} {A : Type ℓ} ⦃e : Comparable A⦄ where
  pub member-concat : (a x : A) (xs : List A) → member a (xs ++ x ∷ []) ≡ (member a xs || x == a)
  member-concat a x [] = ground arith
  member-concat a x (y ∷ xs) = ground (arith, member-concat a x xs)
