-- ===== src/Utils/Diff/Backtrack.antt =====
-- What longestCommonSubsequence returns.
use mathlib.Core.List.{reverse, reverse_aux, reverse-reverse}
use microservices_base.Prelude.{
  ℕ, suc, ◌+◌, ◌≤◌, ◌≡◌, subst, List, [], ◌∷◌, length, arith, inl, inr, Bool-cases, ltb, Bool,
}
use microservices_base.Prelude.Eq.{Comparable, ◌==◌, eq_of_==}
use microservices_base.Utils.Diff.{cell, backtrack, longest_common_subsequence}
use microservices_base.Utils.Diff.Subsequence.{
  Subsequence, done, skip, keep, reverse-Subsequence, length-reverse, Subsequence-nil,
}
use microservices_base.Utils.Diff.Table.{best, best_most, cell-best, table}

module _ {ℓ} {A : Type ℓ} ⦃e : Comparable A⦄ where
  abbrev pub goes_up : List (List ℕ) → List A → List A → Bool
  goes_up dp a b = ltb (cell dp (suc (length a)) (length b)) (cell dp (length a) (suc (length b)))

  skip_all : (l : List A) {s t : List A} → Subsequence s t → Subsequence s (reverse_aux l t)
  skip_all [] p = p
  skip_all (x ∷ l) p = skip_all l (skip p)

  -- What the walk back finds is in both slices, before what it has found.
  backtrack-Subsequence :
      (dp : List (List ℕ)) (a b us vs found : List A)
      → Subsequence found us
      → Subsequence found vs
      → Subsequence (backtrack dp a b found) (reverse_aux a us)
        × Subsequence (backtrack dp a b found) (reverse_aux b vs)
  unfolding backtrack
  backtrack-Subsequence dp [] b us vs found p q = (p, skip_all b q)
  backtrack-Subsequence dp (x ∷ a) [] us vs found p q = (skip_all a (skip p), q)
  backtrack-Subsequence dp (x ∷ a) (y ∷ b) us vs found p q = elim (Bool-cases (x == y)) [
    | inl same ↦
        rw (backtrack, same)
          (backtrack-Subsequence dp a b (x ∷ us) (y ∷ vs) (x ∷ found) (keep p)
            (subst (λ c. Subsequence (x ∷ found) (c ∷ vs)) (eq_of_== x y same) (keep q)))
    | inr other ↦ elim (Bool-cases (goes_up dp a b)) [
      | inl above ↦
          rw (backtrack, other, above)
            (backtrack-Subsequence dp a (y ∷ b) (x ∷ us) vs found (skip p) q)
      | inr left ↦
          rw (backtrack, other, left)
            (backtrack-Subsequence dp (x ∷ a) b us (y ∷ vs) found p (skip q))
    ]
  ]

  -- It finds as many elements as the recurrence says.
  backtrack-best :
      (a b us vs found : List A)
      → length (backtrack (table (reverse_aux a us) (reverse_aux b vs)) a b found)
        ≡ best a b + length found
  unfolding backtrack best
  backtrack-best [] b us vs found = omega arith
  backtrack-best (x ∷ a) [] us vs found = omega arith
  backtrack-best (x ∷ a) (y ∷ b) us vs found =
      let dp = table (reverse_aux a (x ∷ us)) (reverse_aux b (y ∷ vs)) in
      let up = cell-best a (y ∷ b) (x ∷ us) vs in
      let aside = cell-best (x ∷ a) b us (y ∷ vs) in
      elim (Bool-cases (x == y)) [
        | inl same ↦
            rw (backtrack, same) (omega (arith, backtrack-best a b (x ∷ us) (y ∷ vs) (x ∷ found)))
        | inr other ↦ elim (Bool-cases (goes_up dp a b)) [
          | inl above ↦
              rw (backtrack, other, above)
                (ground (arith, up, aside, above, backtrack-best a (y ∷ b) (x ∷ us) vs found))
          | inr left ↦
              rw (backtrack, other, left)
                (ground (arith, up, aside, left, backtrack-best (x ∷ a) b us (y ∷ vs) found))
        ]
      ]

  pub longest_common_subsequence-Subsequence :
      (a b : List A)
      → Subsequence (longest_common_subsequence a b) a
        × Subsequence (longest_common_subsequence a b) b
  unfolding longest_common_subsequence
  longest_common_subsequence-Subsequence [] b = (done, Subsequence-nil b)
  longest_common_subsequence-Subsequence (x ∷ a) [] = (Subsequence-nil (x ∷ a), done)
  longest_common_subsequence-Subsequence (x ∷ a) (y ∷ b) =
      subst (λ l. Subsequence found l × Subsequence found (y ∷ b)) (reverse-reverse (x ∷ a))
        (subst (λ l. Subsequence found (reverse (reverse (x ∷ a))) × Subsequence found l)
          (reverse-reverse (y ∷ b))
          (backtrack-Subsequence _ (reverse (x ∷ a)) (reverse (y ∷ b)) [] [] [] done done))
    where
      found : List A
      found = longest_common_subsequence (x ∷ a) (y ∷ b)

  -- The longest common subsequence is one, and no other is longer.
  pub longest_common_subsequence_most :
      {s : List A} (a b : List A)
      → Subsequence s a
      → Subsequence s b
      → length s ≤ length (longest_common_subsequence a b)
  unfolding longest_common_subsequence
  longest_common_subsequence_most [] b done q = omega arith
  longest_common_subsequence_most (x ∷ a) [] p done = omega arith
  longest_common_subsequence_most {s} (x ∷ a) (y ∷ b) p q =
      let u = reverse (x ∷ a) in
      let v = reverse (y ∷ b) in
      let size =
        subst (λ l. length (backtrack (table l (y ∷ b)) u v []) ≡ best u v + 0)
          (reverse-reverse (x ∷ a))
          (subst (λ l. length (backtrack (table (reverse u) l) u v []) ≡ best u v + 0)
            (reverse-reverse (y ∷ b)) (backtrack-best u v [] [] [])) in
      omega
        (arith, size, length-reverse s, best_most (reverse-Subsequence p) (reverse-Subsequence q))
