-- ===== src/Functional/Validated.antt =====
-- libs/go/src/functional/validated.go: a value or a list of errors. The fields are private to the
-- package, and every function of it makes a value with no errors or errors with no value.
mod Traverse
mod Tests
use microservices_base.Prelude.{
  Bool, true, false, not, Option, none, some, String, List, [], ◌∷◌, ◌++◌, map,
}

pub data Validated {ℓ κ} (E : Type ℓ) (A : Type κ) : Type (ℓ ⊔ κ) where
  valid : A → Validated E A
  invalid : List E → Validated E A

module _ {ℓ κ} {E : Type ℓ} {A : Type κ} where
  unfoldable pub is_valid : Validated E A → Bool
  is_valid (valid value) = true
  is_valid (invalid errors) = false

  unfoldable pub is_invalid : Validated E A → Bool
  is_invalid v = not (is_valid v)

  -- GetValue panics on an invalid one, which is `none`.
  unfoldable pub get_value : Validated E A → Option A
  get_value (valid value) = some value
  get_value (invalid errors) = none

  unfoldable pub get_errors : Validated E A → List E
  get_errors (valid value) = []
  get_errors (invalid errors) = errors

  unfoldable pub get_or_else : Validated E A → A → A
  get_or_else (valid value) default_val = value
  get_or_else (invalid errors) default_val = default_val

  -- The loop of SequenceValidated, with the three variables that it changes.
  unfoldable pub sequence_loop :
      List (Validated E A) → List A → List E → Bool → Validated E (List A)
  sequence_loop [] values errors true = valid values
  sequence_loop [] values errors false = invalid errors
  sequence_loop (valid value ∷ vs) values errors all_valid =
      sequence_loop vs (values ++ value ∷ []) errors all_valid
  sequence_loop (invalid more ∷ vs) values errors all_valid =
      sequence_loop vs values (errors ++ more) false

  unfoldable pub sequence_validated : List (Validated E A) → Validated E (List A)
  sequence_validated vs = sequence_loop vs [] [] true

module _ {ℓ κ μ} {E : Type ℓ} {A : Type κ} {B : Type μ} where
  unfoldable pub map_validated : Validated E A → (A → B) → Validated E B
  map_validated (valid value) fn = valid (fn value)
  map_validated (invalid errors) fn = invalid errors

  unfoldable pub traverse_validated : List A → (A → Validated E B) → Validated E (List B)
  traverse_validated items fn = sequence_validated (map fn items)

  unfoldable pub fold_validated : Validated E A → (List E → B) → (A → B) → B
  fold_validated (valid value) on_invalid on_valid = on_valid value
  fold_validated (invalid errors) on_invalid on_valid = on_invalid errors

  unfoldable pub map_validated_errors : Validated E A → (E → B) → Validated B A
  map_validated_errors (valid value) fn = valid value
  map_validated_errors (invalid errors) fn = invalid (map fn errors)

module _ {ℓ κ μ ν} {E : Type ℓ} {A : Type κ} {B : Type μ} {C : Type ν} where
  unfoldable pub combine_validated : Validated E A → Validated E B → (A → B → C) → Validated E C
  combine_validated (valid a) (valid b) fn = valid (fn a b)
  combine_validated va vb fn = invalid (get_errors va ++ get_errors vb)

module _ {ℓ κ μ ν ο} {E : Type ℓ} {A : Type κ} {B : Type μ} {C : Type ν} {D : Type ο} where
  unfoldable pub combine_validated3 :
      Validated E A → Validated E B → Validated E C → (A → B → C → D) → Validated E D
  combine_validated3 (valid a) (valid b) (valid c) fn = valid (fn a b c)
  combine_validated3 va vb vc fn = invalid (get_errors va ++ get_errors vb ++ get_errors vc)

-- A Result is a value or an error.
pub data Result {ℓ κ} (E : Type ℓ) (A : Type κ) : Type (ℓ ⊔ κ) where
  ok : A → Result E A
  err : E → Result E A

module _ {ℓ κ} {E : Type ℓ} {A : Type κ} (new_error : String → E) where
  unfoldable pub validated_to_result : Validated E A → Result E A
  validated_to_result (valid value) = ok value
  validated_to_result (invalid (first ∷ errors)) = err first
  validated_to_result (invalid []) = err (new_error "validation failed")

unfoldable pub result_to_validated {ℓ κ} : {E : Type ℓ} {A : Type κ} → Result E A → Validated E A
result_to_validated (ok value) = valid value
result_to_validated (err error) = invalid (error ∷ [])
