-- ===== src/Utils/Diff/Tests.antt =====
-- Runs of diff.go on small slices.
use microservices_base.Prelude.{ℕ, ◌≡◌, refl, ◌≤◌, ◌%◌, List, [], ◌∷◌, Bool, ◌==◌}
use microservices_base.Prelude.Eq.{comparable_nat}
use microservices_base.Utils.Diff.{
  diff, patch, op_equal, op_delete, op_insert, Operation, Change, longest_common_subsequence,
  fill_row, fill_table, backtrack, diff_loop, diff_with_equal, comparable_operation,
}
use microservices_base.Utils.Diff.Subsequence.{skip, keep, done}
use microservices_base.Utils.Diff.Patches.{patch-diff}
use microservices_base.Utils.Diff.Fewest.{count, filter_changes-diff_most}
use microservices_base.Utils.Diff.Custom.{Agrees, patch-diff_with_equal}

abbrev before : List ℕ
before = 1 ∷ 2 ∷ 3 ∷ 4 ∷ []

abbrev after : List ℕ
after = 2 ∷ 5 ∷ 4 ∷ 6 ∷ []

abbrev ops : List (Change ℕ) → List Operation
ops [] = []
ops (c ∷ cs) = c.op ∷ ops cs

diff_run :
    ops (diff 0 before after)
    ≡ op_delete ∷ op_equal ∷ op_delete ∷ op_insert ∷ op_equal ∷ op_insert ∷ []
unfolding diff diff_loop longest_common_subsequence fill_row fill_table backtrack
diff_run = refl

patch-diff_example : patch before (diff 0 before after) ≡ after
patch-diff_example = patch-diff 0 before after

filter_changes-diff_most_example : 2 ≤ count (diff 0 before after) op_equal
filter_changes-diff_most_example =
    filter_changes-diff_most 0 (2 ∷ 4 ∷ []) before after (skip (keep (skip (keep done))))
      (keep (skip (keep (skip done))))

abbrev same_parity : ℕ → ℕ → Bool
same_parity a b = a % 2 == b % 2

patch-diff_with_equal_example :
    Agrees same_parity (patch before (diff_with_equal 0 same_parity before after)) after
patch-diff_with_equal_example = patch-diff_with_equal 0 same_parity before after
