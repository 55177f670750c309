-- ===== src/Utils/Merge/Tests.antt =====
-- Runs of merge.go on small slices and maps.
use native.Mathlib.Omega.{arith}
use microservices_base.Prelude.{ℕ, ◌≡◌, refl, Bool, List, [], ◌∷◌, ltb, ◌/◌}
use microservices_base.Prelude.Eq.{comparable_nat}
use microservices_base.Prelude.Assoc.{lookup}
use microservices_base.Prelude.Order.{StrictWeakOrder}
use microservices_base.Utils.Merge.{
  slices, merge_slice_ordered, slices_unique_by, interleave, interleave_loop, interleave_round,
  strategy_overwrite, strategy_keep, maps_with_strategy,
}
use microservices_base.Utils.Merge.Sort.{StableSort, merge_slice_ordered-StableSort}
use microservices_base.Utils.Merge.Unique.{Firsts, slices_unique_by-Firsts}
use microservices_base.Utils.Merge.Maps.{lookup-maps_with_strategy, last, first, values}

abbrev less_tens : ℕ → ℕ → Bool
less_tens a b = ltb (a / 10) (b / 10)

less_tens-StrictWeakOrder : StrictWeakOrder less_tens
less_tens-StrictWeakOrder = record {
  asymmetric = λ a b h. ground arith;
  neg_transitive = λ a b c p q. ground arith;
}

abbrev two_slices : List (List ℕ)
two_slices = (31 ∷ 12 ∷ 35 ∷ []) ∷ (14 ∷ 32 ∷ 3 ∷ []) ∷ []

merge_slice_ordered-StableSort_example :
    StableSort less_tens (slices two_slices) (merge_slice_ordered less_tens two_slices)
merge_slice_ordered-StableSort_example =
    merge_slice_ordered-StableSort less_tens less_tens-StrictWeakOrder two_slices

slices_unique_by-Firsts_example :
    Firsts (λ n. n / 10) (slices two_slices) (slices_unique_by (λ n. n / 10) two_slices)
slices_unique_by-Firsts_example = slices_unique_by-Firsts (λ n. n / 10) two_slices

interleave_run : interleave two_slices ≡ 31 ∷ 14 ∷ 12 ∷ 32 ∷ 35 ∷ 3 ∷ []
unfolding interleave interleave_loop interleave_round
interleave_run = refl

abbrev two_maps : List (List (ℕ × ℕ))
two_maps = ((1, 10) ∷ (2, 20) ∷ []) ∷ ((2, 21) ∷ []) ∷ []

lookup-maps_with_strategy_example :
    (lookup 2 (maps_with_strategy strategy_overwrite two_maps) ≡ last (values 2 (slices two_maps)))
    × (lookup 2 (maps_with_strategy strategy_keep two_maps) ≡ first (values 2 (slices two_maps)))
lookup-maps_with_strategy_example = lookup-maps_with_strategy 2 two_maps
