-- ===== src/Utils/Diff/Maps.antt =====
-- DiffMaps of diff.go. The path of a key, `formatKey`, is a parameter: it goes through reflection.
use microservices_base.Prelude.{Bool, true, false, Option, none, some, List, [], ◌∷◌, ◌++◌, String}
use microservices_base.Prelude.Eq.{Comparable}
use microservices_base.Prelude.Assoc.{lookup}
use microservices_base.Utils.Diff.{Operation, op_insert, op_delete, op_replace}

-- A value that the code does not set is `nil`.
pub record ObjectChange {ℓ} (V : Type ℓ) : Type ℓ where
  pub op : Operation
  pub path : String
  pub old_value : Option V
  pub new_value : Option V

module _ {ℓ κ} {K : Type ℓ} {V : Type κ} ⦃e : Comparable K⦄ (format_key : K → String) where
  -- The loop over `old`: deleted and modified keys.
  unfoldable pub changed_keys : (V → V → Bool) → List (K × V) → List (K × V) → List (ObjectChange V)
  changed_keys equal new [] = []
  changed_keys equal new ((k, v) ∷ old) = elim (lookup k new) [
    | none ↦
        record { op = op_delete; path = format_key k; old_value = some v; new_value = none }
        ∷ changed_keys equal new old
    | some w ↦ elim (equal v w) [
      | true ↦ changed_keys equal new old
      | false ↦
          record { op = op_replace; path = format_key k; old_value = some v; new_value = some w }
          ∷ changed_keys equal new old
    ]
  ]

  -- The loop over `new`: inserted keys.
  unfoldable pub inserted_keys : List (K × V) → List (K × V) → List (ObjectChange V)
  inserted_keys old [] = []
  inserted_keys old ((k, w) ∷ new) = elim (lookup k old) [
    | none ↦
        record { op = op_insert; path = format_key k; old_value = none; new_value = some w }
        ∷ inserted_keys old new
    | some v ↦ inserted_keys old new
  ]

  unfoldable pub diff_maps : List (K × V) → List (K × V) → (V → V → Bool) → List (ObjectChange V)
  diff_maps old new equal = changed_keys equal new old ++ inserted_keys old new
