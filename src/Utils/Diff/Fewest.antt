-- ===== src/Utils/Diff/Fewest.antt =====
-- The number of elements that Diff keeps.
use microservices_base.Prelude.{
  ℕ, suc, ◌≤◌, ◌≡◌, refl, false, List, [], ◌∷◌, ap, inl, inr, Bool-cases, length, arith,
}
use microservices_base.Prelude.Eq.{Comparable, ◌==◌, ==_refl}
use microservices_base.Utils.Diff.{
  diff_loop, diff, filter_changes, longest_common_subsequence, op_equal, Operation, Change,
}
use microservices_base.Utils.Diff.Subsequence.{Subsequence, skip, keep, Subsequence-nil}
use microservices_base.Utils.Diff.Backtrack.{
  longest_common_subsequence-Subsequence, longest_common_subsequence_most,
}

abbrev pub count {ℓ} : {A : Type ℓ} → List (Change A) → Operation → ℕ
count changes op = length (filter_changes changes op)

module _ {ℓ} {A : Type ℓ} ⦃e : Comparable A⦄ (zero_value : A) where
  -- A common subsequence is still one after a first element that is not its first.
  rest_of :
      {x c : A} {s l : List A}
      → (x == c) ≡ false
      → Subsequence (c ∷ s) (x ∷ l)
      → Subsequence (c ∷ s) l
  rest_of differ (skip p) = p
  rest_of {x} differ (keep p) = cc (==_refl x)

  without_first : {c : A} {s l : List A} → Subsequence (c ∷ s) l → Subsequence s l
  without_first (skip p) = skip (without_first p)
  without_first (keep p) = skip p

  tail_of : {x c : A} {s l : List A} → Subsequence (c ∷ s) (x ∷ l) → Subsequence s l
  tail_of (keep p) = p
  tail_of (skip p) = without_first p

  count-diff_loop :
      (old new lcs : List A) (i j : ℕ)
      → Subsequence lcs old
      → Subsequence lcs new
      → count (diff_loop zero_value old new lcs i j) op_equal ≡ length lcs
  unfolding diff_loop filter_changes
  count-diff_loop (x ∷ old) (y ∷ new) (c ∷ lcs) i j p q = elim (Bool-cases (x == c)) [
    | inl ours ↦ elim (Bool-cases (y == c)) [
      | inl both ↦
          rw (diff_loop, ours, both)
            (ap suc (count-diff_loop old new lcs (suc i) (suc j) (tail_of p) (tail_of q)))
      | inr theirs ↦
          rw (diff_loop, ours, theirs, ours)
            (count-diff_loop (x ∷ old) new (c ∷ lcs) i (suc j) p (rest_of theirs q))
    ]
    | inr gone ↦
        rw (diff_loop, gone, gone)
          (count-diff_loop old (y ∷ new) (c ∷ lcs) (suc i) j (rest_of gone p) q)
  ]
  count-diff_loop (x ∷ old) (y ∷ new) [] i j p q =
      count-diff_loop old (y ∷ new) [] (suc i) j (Subsequence-nil old) q
  count-diff_loop (x ∷ old) [] [] i j p q =
      count-diff_loop old [] [] (suc i) j (Subsequence-nil old) q
  count-diff_loop [] (y ∷ new) [] i j p q =
      count-diff_loop [] new [] i (suc j) p (Subsequence-nil new)
  count-diff_loop [] [] [] i j p q = refl
  count-diff_loop [] [] (c ∷ lcs) i j p q = elim p [ ]
  count-diff_loop [] (y ∷ new) (c ∷ lcs) i j p q = elim p [ ]
  count-diff_loop (x ∷ old) [] (c ∷ lcs) i j p q = elim q [ ]

  -- No common subsequence of the slices is longer than the number of elements that Diff keeps.
  pub filter_changes-diff_most :
      (s old new : List A)
      → Subsequence s old
      → Subsequence s new
      → length s ≤ count (diff zero_value old new) op_equal
  unfolding diff
  filter_changes-diff_most s old new p q =
      let (l, r) = longest_common_subsequence-Subsequence old new in
      omega (
        arith,
        longest_common_subsequence_most old new p q,
        count-diff_loop old new (longest_common_subsequence old new) 0 0 l r,
      )
