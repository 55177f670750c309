-- ===== src/Utils/Merge.antt =====
-- libs/go/src/utils/merge/merge.go: merging slices and maps. A map is an association list, so a
-- `range` over it follows the list.
pub mod Unique
pub mod Maps
pub mod Sort
mod Tests
use Prim.Native.Nat.{max}
use mathlib.Core.List.{reverse}
use native.Mathlib.Omega.{arith}
use microservices_base.Prelude.{
  ℕ, zero, suc, ◌+◌, Bool, true, false, Option, none, some, List, [], ◌∷◌, ◌++◌, length, take, drop,
  get_elem?, ltb, if◌then◌else◌,
}
use microservices_base.Prelude.Eq.{Comparable, ◌==◌, member}
use microservices_base.Prelude.Assoc.{lookup, insert}
use microservices_base.Prelude.Int.{ℤ, pos, negsuc}

pub data Strategy : Type 0 where
  strategy_overwrite strategy_keep strategy_append : Strategy

module _ {ℓ} {A : Type ℓ} where
  abbrev pub slices : List (List A) → List A
  slices [] = []
  slices (s ∷ ss) = s ++ slices ss

  -- A slice expression's index is within the slice after the two guards.
  unfoldable pub merge_slice_at : List A → ℤ → List A → List A
  merge_slice_at slice (negsuc _) elements = elements ++ slice
  merge_slice_at slice (pos i) elements =
      let index = if ltb (length slice) i then length slice else i in
      take index slice ++ elements ++ drop index slice

  -- The swaps of `merged[j]` with the elements before it, the nearest of which is first here.
  unfoldable pub sift_back : (A → A → Bool) → A → List A → List A
  sift_back less x [] = x ∷ []
  sift_back less x (y ∷ done) =
      let rest = sift_back less x done in if less x y then y ∷ rest else x ∷ y ∷ done

  -- The rounds of the `for`: `done` is `merged[:i]` reversed.
  unfoldable pub sort_loop : (A → A → Bool) → List A → List A → List A
  sort_loop less done [] = done
  sort_loop less done (x ∷ rest) = sort_loop less (sift_back less x done) rest

  unfoldable pub merge_slice_ordered : (A → A → Bool) → List (List A) → List A
  merge_slice_ordered less ss = reverse (sort_loop less [] (slices ss))

  abbrev pub max_length : List (List A) → ℕ
  max_length [] = 0
  max_length (s ∷ ss) = max (length s) (max_length ss)

  -- The inner loop of `Interleave` for one index.
  unfoldable pub interleave_round : ℕ → List (List A) → List A
  interleave_round i [] = []
  interleave_round i (s ∷ ss) = elim (get_elem? s i) [
    | some x ↦ x ∷ interleave_round i ss
    | none ↦ interleave_round i ss
  ]

  -- `rounds` rounds from the index `i` on.
  unfoldable pub interleave_loop : ℕ → ℕ → List (List A) → List A
  interleave_loop zero i ss = []
  interleave_loop (suc rounds) i ss = interleave_round i ss ++ interleave_loop rounds (suc i) ss

  unfoldable pub interleave : List (List A) → List A
  interleave ss = interleave_loop (max_length ss) 0 ss

module _ {ℓ κ μ} {A : Type ℓ} {B : Type κ} {C : Type μ} where
  unfoldable pub zip_with : List A → List B → (A → B → C) → List C
  zip_with (x ∷ a) (y ∷ b) combine = combine x y ∷ zip_with a b combine
  zip_with _ _ combine = []

unfoldable pub zip {ℓ κ} : {A : Type ℓ} {B : Type κ} → List A → List B → List (A × B)
zip a b = zip_with a b (λ x y. (x, y))

module _ {ℓ κ} {A : Type ℓ} {K : Type κ} ⦃e : Comparable K⦄ (key_fn : A → K) where
  -- Both loops at once, on the slices in a row; `seen` holds the keys that are set to true.
  unfoldable pub unique_loop : List K → List A → List A
  unique_loop seen [] = []
  unique_loop seen (v ∷ rest) = elim (member (key_fn v) seen) [
    | true ↦ unique_loop seen rest
    | false ↦ v ∷ unique_loop (key_fn v ∷ seen) rest
  ]

  unfoldable pub slices_unique_by : List (List A) → List A
  slices_unique_by ss = unique_loop [] (slices ss)

-- The code repeats the loop of `SlicesUniqueBy` with the element as its key.
unfoldable pub slices_unique {ℓ} : {A : Type ℓ} ⦃e : Comparable A⦄ → List (List A) → List A
slices_unique ss = unique_loop (λ v. v) [] (slices ss)

module _ {ℓ κ} {K : Type ℓ} {V : Type κ} ⦃e : Comparable K⦄ where
  unfoldable pub maps_loop : List (K × V) → List (K × V) → List (K × V)
  maps_loop result [] = result
  maps_loop result ((k, v) ∷ m) = maps_loop (insert k v result) m

  unfoldable pub maps : List (List (K × V)) → List (K × V)
  maps ms = maps_loop [] (slices ms)

  -- One round of the inner loop of `MapsWithStrategy`.
  unfoldable pub put_with : Strategy → K → V → List (K × V) → List (K × V)
  put_with strategy k v result = elim (lookup k result) [
    | some old ↦ elim strategy [
      | strategy_overwrite ↦ insert k v result
      | strategy_keep ↦ result
      | strategy_append ↦ result
    ]
    | none ↦ insert k v result
  ]

  unfoldable pub strategy_loop : Strategy → List (K × V) → List (K × V) → List (K × V)
  strategy_loop strategy result [] = result
  strategy_loop strategy result ((k, v) ∷ m) =
      strategy_loop strategy (put_with strategy k v result) m

  unfoldable pub maps_with_strategy : Strategy → List (List (K × V)) → List (K × V)
  maps_with_strategy strategy ms = strategy_loop strategy [] (slices ms)

  unfoldable pub put_resolved : (K → V → V → V) → K → V → List (K × V) → List (K × V)
  put_resolved resolver k v result = elim (lookup k result) [
    | some existing ↦ insert k (resolver k existing v) result
    | none ↦ insert k v result
  ]

  unfoldable pub resolver_loop : (K → V → V → V) → List (K × V) → List (K × V) → List (K × V)
  resolver_loop resolver result [] = result
  resolver_loop resolver result ((k, v) ∷ m) =
      resolver_loop resolver (put_resolved resolver k v result) m

  unfoldable pub maps_with_resolver : (K → V → V → V) → List (List (K × V)) → List (K × V)
  maps_with_resolver resolver ms = resolver_loop resolver [] (slices ms)

  -- A missing key reads as the empty slice.
  abbrev pub values_of : K → List (K × List V) → List V
  values_of k m = elim (lookup k m) [ none ↦ [] | some vs ↦ vs ]

  unfoldable pub slice_values_loop : List (K × List V) → List (K × List V) → List (K × List V)
  slice_values_loop result [] = result
  slice_values_loop result ((k, v) ∷ m) =
      slice_values_loop (insert k (values_of k result ++ v) result) m

  unfoldable pub merge_map_slice_values : List (List (K × List V)) → List (K × List V)
  merge_map_slice_values ms = slice_values_loop [] (slices ms)
