-- ===== src/Functional/Validated/Traverse.antt =====
-- Sequences, traversals and combinations.
use mathlib.Core.List.{append_assoc, append-nil}
use microservices_base.Prelude.{
  ◌≡◌, refl, sym, ap, ◌∙◌, Bool, true, false, ◌&&◌, List, [], ◌∷◌, ◌++◌, map, inl, inr, Bool-cases,
  String,
}
use microservices_base.Functional.Validated.{
  Validated, valid, invalid, get_errors, sequence_loop, sequence_validated, traverse_validated,
  combine_validated, combine_validated3, Result, ok, err, validated_to_result, result_to_validated,
}

module _ {ℓ κ} {E : Type ℓ} {A : Type κ} where
  -- The values and the errors of the elements, in their order.
  abbrev pub values_of : List (Validated E A) → List A
  values_of [] = []
  values_of (valid value ∷ vs) = value ∷ values_of vs
  values_of (invalid errors ∷ vs) = values_of vs

  abbrev pub errors_of : List (Validated E A) → List E
  errors_of [] = []
  errors_of (valid value ∷ vs) = errors_of vs
  errors_of (invalid errors ∷ vs) = errors ++ errors_of vs

  abbrev pub all_valid_in : List (Validated E A) → Bool
  all_valid_in [] = true
  all_valid_in (valid value ∷ vs) = all_valid_in vs
  all_valid_in (invalid errors ∷ vs) = false

  -- The outcome by the three.
  abbrev pub outcome : Bool → List A → List E → Validated E (List A)
  outcome true values errors = valid values
  outcome false values errors = invalid errors

  sequence_loop-outcome :
      (vs : List (Validated E A)) (values : List A) (errors : List E) (all_valid : Bool)
      → sequence_loop vs values errors all_valid
        ≡ outcome (all_valid && all_valid_in vs) (values ++ values_of vs) (errors ++ errors_of vs)
  unfolding sequence_loop
  sequence_loop-outcome [] values errors true = ap valid (sym (append-nil values))
  sequence_loop-outcome [] values errors false = ap invalid (sym (append-nil errors))
  sequence_loop-outcome (valid value ∷ vs) values errors all_valid =
      sequence_loop-outcome vs (values ++ value ∷ []) errors all_valid
      ∙ ap (λ l. outcome (all_valid && all_valid_in vs) l (errors ++ errors_of vs))
          (append_assoc values (value ∷ []) (values_of vs))
  sequence_loop-outcome (invalid more ∷ vs) values errors true =
      sequence_loop-outcome vs values (errors ++ more) false
      ∙ ap invalid (append_assoc errors more (errors_of vs))
  sequence_loop-outcome (invalid more ∷ vs) values errors false =
      sequence_loop-outcome vs values (errors ++ more) false
      ∙ ap invalid (append_assoc errors more (errors_of vs))

  -- SequenceValidated returns all values, where every element is valid, and else the errors of all
  -- elements that are not, in order.
  pub sequence_validated-outcome :
      (vs : List (Validated E A))
      → sequence_validated vs ≡ outcome (all_valid_in vs) (values_of vs) (errors_of vs)
  unfolding sequence_validated
  sequence_validated-outcome vs = sequence_loop-outcome vs [] [] true

  errors_of_valid : (vs : List (Validated E A)) → all_valid_in vs ≡ true → errors_of vs ≡ []
  errors_of_valid [] h = refl
  errors_of_valid (valid value ∷ vs) h = errors_of_valid vs h
  errors_of_valid (invalid errors ∷ vs) h = cc

  outcome-combine_validated :
      (v : Validated E A) (vs : List (Validated E A))
      → outcome (all_valid_in (v ∷ vs)) (values_of (v ∷ vs)) (errors_of (v ∷ vs))
        ≡ combine_validated v (outcome (all_valid_in vs) (values_of vs) (errors_of vs)) ◌∷◌
  unfolding combine_validated get_errors
  outcome-combine_validated (valid value) vs = elim (Bool-cases (all_valid_in vs)) [
    | inl every ↦ rw every refl
    | inr some ↦ rw some refl
  ]
  outcome-combine_validated (invalid errors) vs = elim (Bool-cases (all_valid_in vs)) [
    | inl every ↦ rw (every, errors_of_valid vs every) refl
    | inr some ↦ rw some refl
  ]

module _ {ℓ κ μ} {E : Type ℓ} {A : Type κ} {B : Type μ} where
  -- TraverseValidated keeps the errors of every item, in order: on no items it is valid with no
  -- values, and an item more is combined with the others by CombineValidated.
  pub traverse_validated-combine_validated :
      (item : A) (items : List A) (fn : A → Validated E B)
      → (traverse_validated [] fn ≡ valid [])
        × (traverse_validated (item ∷ items) fn
            ≡ combine_validated (fn item) (traverse_validated items fn) ◌∷◌)
  unfolding traverse_validated
  traverse_validated-combine_validated item items fn = (
    sequence_validated-outcome [],
    sequence_validated-outcome (fn item ∷ map fn items)
        ∙ outcome-combine_validated (fn item) (map fn items)
        ∙ ap (λ v. combine_validated (fn item) v ◌∷◌)
            (sym (sequence_validated-outcome (map fn items))),
  )

module _ {ℓ κ μ ν ο} {E : Type ℓ} {A : Type κ} {B : Type μ} {C : Type ν} {D : Type ο} where
  -- CombineValidated3 is CombineValidated twice.
  pub combine_validated3-combine_validated :
      (va : Validated E A) (vb : Validated E B) (vc : Validated E C) (fn : A → B → C → D)
      → combine_validated3 va vb vc fn
        ≡ combine_validated (combine_validated va vb (λ a b. (a, b))) vc (λ (a, b) c. fn a b c)
  unfolding combine_validated3 combine_validated get_errors
  combine_validated3-combine_validated (valid a) (valid b) (valid c) fn = refl
  combine_validated3-combine_validated (valid a) (valid b) (invalid es) fn = refl
  combine_validated3-combine_validated (valid a) (invalid es) (valid c) fn = refl
  combine_validated3-combine_validated (valid a) (invalid es) (invalid fs) fn = refl
  combine_validated3-combine_validated (invalid es) (valid b) (valid c) fn = refl
  combine_validated3-combine_validated (invalid es) (valid b) (invalid fs) fn = refl
  combine_validated3-combine_validated (invalid es) (invalid fs) vc fn = refl

-- A Result that becomes a Validated and a Result again is the same.
validated_to_result-result_to_validated {ℓ κ} :
    {E : Type ℓ} {A : Type κ} (new_error : String → E) (r : Result E A)
    → validated_to_result new_error (result_to_validated r) ≡ r
unfolding validated_to_result result_to_validated
validated_to_result-result_to_validated new_error (ok value) = refl
validated_to_result-result_to_validated new_error (err error) = refl
