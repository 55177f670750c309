-- ===== src/FileUpload/Sanitizer/Deletion.antt =====
-- What deleting occurrences keeps.
use microservices_base.Prelude.{
  ℕ, zero, suc, ◌-◌, ◌≡◌, ◌≢◌, sym, true, List, [], ◌∷◌, length, inl, inr, Bool-cases,
}
use microservices_base.Prelude.Eq.{◌==◌, comparable_nat, ne_of_==}
use microservices_base.Prelude.Order.{All, all_nil, all_cons}
use microservices_base.FileUpload.Sanitizer.{
  has_prefix, replace_from, replace_all, remove_each, printed, is_printed,
}

module _ {P : ℕ → Type 0} where
  replace_from-All : (skip : ℕ) (p s : List ℕ) → All P s → All P (replace_from skip p [] s)
  unfolding replace_from
  replace_from-All skip p [] all_nil = all_nil
  replace_from-All (suc skip) p (c ∷ s) (all_cons q qs) = replace_from-All skip p s qs
  replace_from-All zero p (c ∷ s) (all_cons q qs) = elim (Bool-cases (has_prefix p (c ∷ s))) [
    | inl found ↦ rw (replace_from, found) (replace_from-All (length p - 1) p s qs)
    | inr other ↦ rw (replace_from, other) (all_cons q (replace_from-All zero p s qs))
  ]

  pub replace_all-All : (s p : List ℕ) → All P s → All P (replace_all s p [])
  unfolding replace_all
  replace_all-All s p = replace_from-All zero p s

  pub remove_each-All : (ps : List (List ℕ)) (s : List ℕ) → All P s → All P (remove_each ps s)
  unfolding remove_each
  remove_each-All [] s h = h
  remove_each-All (p ∷ ps) s h = remove_each-All ps (replace_all s p []) (replace_all-All s p h)

-- A character that is deleted wherever it stands.
pub replace_all-absent : (c : ℕ) (s : List ℕ) → All (λ d. d ≢ c) (replace_all s (c ∷ []) [])
unfolding replace_all replace_from has_prefix
replace_all-absent c [] = all_nil
replace_all-absent c (d ∷ s) = elim (Bool-cases (c == d)) [
  | inl same ↦ rw same (replace_all-absent c s)
  | inr other ↦ rw other (all_cons (λ e. ne_of_== c d other (sym e)) (replace_all-absent c s))
]

pub printed-All : (s : List ℕ) → All (λ r. is_printed r ≡ true) (printed s)
unfolding printed
printed-All [] = all_nil
printed-All (r ∷ s) = elim (Bool-cases (is_printed r)) [
  | inl shown ↦ rw (printed, shown) (all_cons shown (printed-All s))
  | inr hidden ↦ rw (printed, hidden) (printed-All s)
]

pub printed_keeps : {P : ℕ → Type 0} (s : List ℕ) → All P s → All P (printed s)
unfolding printed
printed_keeps [] all_nil = all_nil
printed_keeps (r ∷ s) (all_cons p ps) = elim (Bool-cases (is_printed r)) [
  | inl shown ↦ rw (printed, shown) (all_cons p (printed_keeps s ps))
  | inr hidden ↦ rw (printed, hidden) (printed_keeps s ps)
]
