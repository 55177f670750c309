-- ===== src/Functional/Validated/Tests.antt =====
-- Runs of validated.go.
use microservices_base.Prelude.{ℕ, ◌≡◌, refl, true, false, [], ◌∷◌, ltb}
use microservices_base.Functional.Validated.{
  Validated, valid, invalid, traverse_validated, combine_validated, sequence_validated,
  sequence_loop,
}
use microservices_base.Functional.Validated.Traverse.{traverse_validated-combine_validated}

abbrev checked : ℕ → Validated ℕ ℕ
checked n = elim (ltb n 5) [ true ↦ valid n | false ↦ invalid (n ∷ []) ]

traverse_run : traverse_validated (1 ∷ 9 ∷ 2 ∷ 7 ∷ []) checked ≡ invalid (9 ∷ 7 ∷ [])
unfolding traverse_validated sequence_validated sequence_loop
traverse_run = refl

traverse_validated-combine_validated_example :
    (traverse_validated [] checked ≡ valid [])
    × (traverse_validated (9 ∷ 2 ∷ 7 ∷ []) checked
        ≡ combine_validated (checked 9) (traverse_validated (2 ∷ 7 ∷ []) checked) ◌∷◌)
traverse_validated-combine_validated_example =
    traverse_validated-combine_validated 9 (2 ∷ 7 ∷ []) checked
