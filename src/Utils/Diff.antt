-- ===== src/Utils/Diff.antt =====
-- libs/go/src/utils/diff/diff.go: the differences of two slices. An index that only moves forward
-- is the suffix from it; one that only moves backward is the reversed prefix before it.
pub mod Subsequence
pub mod Table
pub mod Backtrack
pub mod Patches
pub mod Custom
pub mod Fewest
pub mod Changed
pub mod Maps
mod Tests
use Prim.Native.Nat.{max}
use mathlib.Core.List.{reverse}
use native.Mathlib.Omega.{arith}
use microservices_base.Prelude.{
  ℕ, suc, ◌+◌, ◌≡◌, refl, ◌↔◌, Bool, true, false, ◌&&◌, ◌||◌, not, Option, none, some, List, [],
  ◌∷◌, length, get_or, replicate, ltb, String, if◌then◌else◌,
}
use microservices_base.Prelude.Eq.{Comparable, ◌==◌}
use microservices_base.Prelude.Assoc.{lookup, insert}

pub data Operation : Type 0 where
  op_equal op_insert op_delete op_replace : Operation

abbrev pub same_operation : Operation → Operation → Bool
same_operation op_equal op_equal = true
same_operation op_insert op_insert = true
same_operation op_delete op_delete = true
same_operation op_replace op_replace = true
same_operation _ _ = false

pub same_operation_iff : (a b : Operation) → (same_operation a b ≡ true) ↔ (a ≡ b)
same_operation_iff a b = ground arith

instance abbrev pub comparable_operation : Comparable Operation
comparable_operation = record { is_equal = same_operation; is_equal_iff = same_operation_iff }

unfoldable pub operation_name : Operation → String
operation_name op_equal = "equal"
operation_name op_insert = "insert"
operation_name op_delete = "delete"
operation_name op_replace = "replace"

-- A value that the code does not set is the zero value of its type.
pub record Change {ℓ} (A : Type ℓ) : Type ℓ where
  pub op : Operation
  pub index : ℕ
  pub old_value : A
  pub new_value : A

abbrev pub kept {ℓ} : {A : Type ℓ} → ℕ → A → A → Change A
kept index x y = record { op = op_equal; index = index; old_value = x; new_value = y }

module _ {ℓ} {A : Type ℓ} (zero_value : A) where
  abbrev pub deleted : ℕ → A → Change A
  deleted index x = record { op = op_delete; index = index; old_value = x; new_value = zero_value }

  abbrev pub inserted : ℕ → A → Change A
  inserted index y = record { op = op_insert; index = index; old_value = zero_value; new_value = y }

-- `dp[i][j]`.
abbrev pub cell : List (List ℕ) → ℕ → ℕ → ℕ
cell dp i j = get_or (get_or dp i []) j 0

module _ {ℓ} {A : Type ℓ} ⦃e : Comparable A⦄ where
  -- One row of `dp` from `dp[i][1]` on: `diag`, `up` and `left` are the cells beside the new one.
  unfoldable pub fill_row : A → List A → List ℕ → ℕ → List ℕ
  fill_row x (y ∷ b) (diag ∷ up ∷ above) left =
      let cell = if x == y then diag + 1 else max up left in cell ∷ fill_row x b (up ∷ above) cell
  fill_row x _ _ left = []

  -- The rows of `dp` from the row `above` on.
  unfoldable pub fill_table : List A → List A → List ℕ → List (List ℕ)
  fill_table [] b above = above ∷ []
  fill_table (x ∷ a) b above = above ∷ fill_table a b (0 ∷ fill_row x b above 0)

  -- The `for` that walks back through `dp` from `dp[i][j]`: `a[:i]` and `b[:j]` reversed.
  unfoldable pub backtrack : List (List ℕ) → List A → List A → List A → List A
  backtrack dp (x ∷ a) (y ∷ b) lcs = elim (x == y) [
    | true ↦ backtrack dp a b (x ∷ lcs)
    | false ↦
        elim (ltb (cell dp (suc (length a)) (length b)) (cell dp (length a) (suc (length b)))) [
          | true ↦ backtrack dp a (y ∷ b) lcs
          | false ↦ backtrack dp (x ∷ a) b lcs
        ]
  ]
  backtrack dp _ _ lcs = lcs

  -- With an empty slice both loops are over at once.
  unfoldable pub longest_common_subsequence : List A → List A → List A
  longest_common_subsequence [] b = []
  longest_common_subsequence a [] = []
  longest_common_subsequence a b =
      backtrack (fill_table a b (replicate (length b + 1) 0)) (reverse a) (reverse b) []

  module _ (zero_value : A) where
    unfoldable pub diff_loop : (old new lcs : List A) → ℕ → ℕ → List (Change A)
    diff_loop (x ∷ old) (y ∷ new) (c ∷ lcs) i j = elim (x == c && y == c) [
      | true ↦ kept j x y ∷ diff_loop old new lcs (suc i) (suc j)
      | false ↦ elim (x == c) [
        | false ↦ deleted zero_value i x ∷ diff_loop old (y ∷ new) (c ∷ lcs) (suc i) j
        | true ↦ inserted zero_value j y ∷ diff_loop (x ∷ old) new (c ∷ lcs) i (suc j)
      ]
    ]
    diff_loop (x ∷ old) new lcs i j = deleted zero_value i x ∷ diff_loop old new lcs (suc i) j
    diff_loop [] (y ∷ new) lcs i j = inserted zero_value j y ∷ diff_loop [] new lcs i (suc j)
    diff_loop [] [] lcs i j = []

    unfoldable pub diff : (old new : List A) → List (Change A)
    diff old new = diff_loop old new (longest_common_subsequence old new) 0 0

module _ {ℓ} {A : Type ℓ} where
  -- `Patch`, with the part of `old` from `oldIdx` on.
  unfoldable pub patch : List A → List (Change A) → List A
  patch old [] = old
  patch old (c ∷ changes) = elim c.op [
    | op_equal ↦ elim old [ [] ↦ patch [] changes | x ∷ rest ↦ x ∷ patch rest changes ]
    | op_insert ↦ c.new_value ∷ patch old changes
    | op_delete ↦ elim old [ [] ↦ patch [] changes | x ∷ rest ↦ patch rest changes ]
    | op_replace ↦ elim old [
      | [] ↦ c.new_value ∷ patch [] changes
      | x ∷ rest ↦ c.new_value ∷ patch rest changes
    ]
  ]

  -- The inner loop of `DiffWithEqual` over `new` from `newIdx + 1` on.
  unfoldable pub found_later : (A → A → Bool) → A → List A → Bool
  found_later equal x [] = false
  found_later equal x (y ∷ new) = if equal x y then true else found_later equal x new

  module _ (zero_value : A) (equal : A → A → Bool) where
    unfoldable pub diff_with_equal_loop : (old new : List A) → ℕ → ℕ → List (Change A)
    diff_with_equal_loop (x ∷ old) (y ∷ new) i j = elim (equal x y) [
      | true ↦ kept j x y ∷ diff_with_equal_loop old new (suc i) (suc j)
      | false ↦ elim (found_later equal x new) [
        | true ↦ inserted zero_value j y ∷ diff_with_equal_loop (x ∷ old) new i (suc j)
        | false ↦ deleted zero_value i x ∷ diff_with_equal_loop old (y ∷ new) (suc i) j
      ]
    ]
    diff_with_equal_loop (x ∷ old) [] i j =
        deleted zero_value i x ∷ diff_with_equal_loop old [] (suc i) j
    diff_with_equal_loop [] (y ∷ new) i j =
        inserted zero_value j y ∷ diff_with_equal_loop [] new i (suc j)
    diff_with_equal_loop [] [] i j = []

    unfoldable pub diff_with_equal : (old new : List A) → List (Change A)
    diff_with_equal old new = diff_with_equal_loop old new 0 0

  unfoldable pub has_changes : List (Change A) → Bool
  has_changes [] = false
  has_changes (c ∷ changes) = if not (c.op == op_equal) then true else has_changes changes

  unfoldable pub filter_changes : List (Change A) → Operation → List (Change A)
  filter_changes [] op = []
  filter_changes (c ∷ changes) op =
      if c.op == op then c ∷ filter_changes changes op else filter_changes changes op

-- A missing key reads as zero.
abbrev pub count_of : Operation → List (Operation × ℕ) → ℕ
count_of op counts = elim (lookup op counts) [ none ↦ 0 | some n ↦ n ]

module _ {ℓ} {A : Type ℓ} where
  abbrev pub count_loop : List (Change A) → List (Operation × ℕ) → List (Operation × ℕ)
  count_loop [] counts = counts
  count_loop (c ∷ changes) counts =
      count_loop changes (insert c.op (count_of c.op counts + 1) counts)

  unfoldable pub count_changes : List (Change A) → List (Operation × ℕ)
  count_changes changes = count_loop changes []
