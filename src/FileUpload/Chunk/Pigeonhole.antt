-- ===== src/FileUpload/Chunk/Pigeonhole.antt =====
-- Different numbers below n: at most n of them, and all if there are n.
use microservices_base.Prelude.{
  ℕ, zero, suc, ◌≤◌, ◌<◌, ◌≡◌, refl, sym, ap, ◌∙◌, inl, inr, true, false, List, [], ◌∷◌, ◌++◌,
  Bool-cases, arith, if◌then◌else◌, length,
}
use microservices_base.Prelude.Eq.{◌==◌, comparable_nat, member, member-concat, eq_of_==, ne_of_==}

abbrev pub AllBelow : ℕ → List ℕ → Type 0
AllBelow n [] = Unit
AllBelow n (x ∷ xs) = (x < n) × AllBelow n xs

abbrev pub AllDistinct : List ℕ → Type 0
AllDistinct [] = Unit
AllDistinct (x ∷ xs) = (member x xs ≡ false) × AllDistinct xs

abbrev without : ℕ → List ℕ → List ℕ
without a [] = []
without a (x ∷ xs) = if x == a then xs else x ∷ without a xs

member-without : (a b : ℕ) (xs : List ℕ) → member b xs ≡ false → member b (without a xs) ≡ false
member-without a b [] h = refl
member-without a b (x ∷ xs) h = ground (arith, member-without a b xs)

without-AllDistinct : (a : ℕ) (xs : List ℕ) → AllDistinct xs → AllDistinct (without a xs)
without-AllDistinct a [] d = tt
without-AllDistinct a (x ∷ xs) d = elim (Bool-cases (x == a)) [
  | inl same ↦ rw same d.1
  | inr other ↦ rw other (member-without a x xs d.0, without-AllDistinct a xs d.1)
]

-- Without the largest number, the others are below it.
without-AllBelow :
    (n : ℕ) (xs : List ℕ) → AllDistinct xs → AllBelow (suc n) xs → AllBelow n (without n xs)
without-AllBelow n [] d b = tt
without-AllBelow n (x ∷ xs) d b = elim (Bool-cases (x == n)) [
  | inl same ↦ rw same (below xs (ap (λ y. member y xs) (sym (eq_of_== x n same)) ∙ d.0) b.1)
  | inr other ↦ rw other (omega (arith, ne_of_== x n other, b.0), without-AllBelow n xs d.1 b.1)
]
  where
    below : (ys : List ℕ) → member n ys ≡ false → AllBelow (suc n) ys → AllBelow n ys
    below [] h c = tt
    below (y ∷ ys) h c = elim (Bool-cases (y == n)) [
      | inl same ↦ cc (rw same at h)
      | inr other ↦ (omega (arith, ne_of_== y n other, c.0), below ys (rw other at h) c.1)
    ]

length-without : (a : ℕ) (xs : List ℕ) → length xs ≤ suc (length (without a xs))
length-without a [] = omega arith
length-without a (x ∷ xs) = elim (Bool-cases (x == a)) [
  | inl same ↦ rw same (omega arith)
  | inr other ↦ rw other (omega (arith, length-without a xs))
]

pub length-le : (n : ℕ) (xs : List ℕ) → AllDistinct xs → AllBelow n xs → length xs ≤ n
length-le zero [] d b = omega arith
length-le zero (x ∷ xs) d b = absurd (omega (arith, b.0))
length-le (suc n) xs d b = omega (
  arith,
  length-le n (without n xs) (without-AllDistinct n xs d) (without-AllBelow n xs d b),
  length-without n xs,
)

pub all_there :
    (n : ℕ) (xs : List ℕ)
    → AllDistinct xs
    → AllBelow n xs
    → length xs ≡ n
    → (i : ℕ) → i < n
    → member i xs ≡ true
all_there n xs d b full i h = elim (Bool-cases (member i xs)) [
  | inl there ↦ there
  | inr missing ↦ absurd (omega (arith, full, length-le n (i ∷ xs) (missing, d) (h, b)))
]

pub AllBelow-concat : (n x : ℕ) (xs : List ℕ) → AllBelow n xs → x < n → AllBelow n (xs ++ x ∷ [])
AllBelow-concat n x [] b h = (h, tt)
AllBelow-concat n x (y ∷ xs) b h = (b.0, AllBelow-concat n x xs b.1 h)

pub AllDistinct-concat :
    (x : ℕ) (xs : List ℕ) → AllDistinct xs → member x xs ≡ false → AllDistinct (xs ++ x ∷ [])
AllDistinct-concat x [] d h = (refl, tt)
AllDistinct-concat x (y ∷ xs) d h = (
  ground (
    arith,
    member-concat y x xs,
    d.0,
    comparable_nat.is_equal_iff x y,
    comparable_nat.is_equal_iff y x,
  ),
  AllDistinct-concat x xs d.1 (ground arith),
)
