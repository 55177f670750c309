-- ===== src/Utils/Merge/Maps.antt =====
-- What a key has after maps are merged.
use mathlib.Core.List.{append-nil, append_assoc}
use native.Mathlib.Omega.{arith}
use microservices_base.Prelude.{
  ◌≡◌, refl, sym, ap, ◌∙◌, Option, none, some, List, [], ◌∷◌, ◌++◌, inl, inr, Bool-cases,
  if◌then◌else◌, Option-cases,
}
use microservices_base.Prelude.Eq.{Comparable, ◌==◌, ==_refl, eq-cases, ==_of_ne}
use microservices_base.Prelude.Assoc.{
  lookup, insert, lookup-insert, lookup-insert_self, lookup-insert_ne,
}
use microservices_base.Utils.Merge.{
  slices, Strategy, strategy_overwrite, strategy_keep, strategy_append, put_with, strategy_loop,
  maps_with_strategy, put_resolved, resolver_loop, maps_with_resolver, values_of, slice_values_loop,
  merge_map_slice_values,
}

-- The value that a later entry of one key leaves.
pub settle {κ} : {V : Type κ} → Strategy → V → V → V
settle strategy_overwrite old new = new
settle strategy_keep old new = old
settle strategy_append old new = old

-- The values folded from the left, from the first or from one that is held.
abbrev pub reduce {κ} : {V : Type κ} → (V → V → V) → Option V → List V → Option V
reduce f held [] = held
reduce f none (v ∷ vs) = reduce f (some v) vs
reduce f (some old) (v ∷ vs) = reduce f (some (f old v)) vs

abbrev pub fold_value {κ} : {V : Type κ} → (V → V → V) → Option V → V → V
fold_value f none v = v
fold_value f (some old) v = f old v

abbrev pub last {κ} : {V : Type κ} → List V → Option V
last [] = none
last (v ∷ []) = some v
last (v ∷ w ∷ vs) = last (w ∷ vs)

abbrev pub first {κ} : {V : Type κ} → List V → Option V
first [] = none
first (v ∷ vs) = some v

reduce-last {κ} : {V : Type κ} (vs : List V) → reduce (settle strategy_overwrite) none vs ≡ last vs
unfolding settle
reduce-last [] = refl
reduce-last (v ∷ []) = refl
reduce-last (v ∷ w ∷ vs) = reduce-last (w ∷ vs)

kept_first {κ} :
    {V : Type κ} (v : V) (vs : List V) → reduce (settle strategy_keep) (some v) vs ≡ some v
unfolding settle
kept_first v [] = refl
kept_first v (w ∷ vs) = kept_first v vs

reduce-first {κ} : {V : Type κ} (vs : List V) → reduce (settle strategy_keep) none vs ≡ first vs
reduce-first [] = refl
reduce-first (v ∷ vs) = kept_first v vs

reduce-cons {κ} :
    {V : Type κ} (f : V → V → V) (held : Option V) (v : V) (vs : List V)
    → reduce f held (v ∷ vs) ≡ reduce f (some (fold_value f held v)) vs
reduce-cons f none v vs = refl
reduce-cons f (some old) v vs = refl

module _ {ℓ κ} {K : Type ℓ} {V : Type κ} ⦃e : Comparable K⦄ where
  -- The values that the maps have for a key, in the order of the maps.
  unfoldable pub values : K → List (K × V) → List V
  values k [] = []
  values k ((j, v) ∷ m) = if j == k then v ∷ values k m else values k m

  reduce-values :
      (f : V → V → V) (held : Option V) (k j : K) (v : V) (m : List (K × V))
      → reduce f held (values k ((j, v) ∷ m))
        ≡ reduce f (if j == k then some (fold_value f held v) else held) (values k m)
  unfolding values
  reduce-values f held k j v m = elim (Bool-cases (j == k)) [
    | inl same ↦ rw (values, same) (reduce-cons f held v (values k m))
    | inr other ↦ rw (values, other) refl
  ]

  lookup-put_resolved :
      (r : K → V → V → V) (k j : K) (v : V) (m : List (K × V))
      → lookup k (put_resolved r j v m)
        ≡ (if j == k then some (fold_value (r k) (lookup k m) v) else lookup k m)
  unfolding put_resolved
  lookup-put_resolved r k j v m = elim (eq-cases j k) [
    | inl same ↦ rw same (elim (Option-cases (lookup k m)) [
      | inl absent ↦ rw (put_resolved, absent, ==_refl k) (lookup-insert_self k v m)
      | inr (old, found) ↦ rw (put_resolved, found, ==_refl k) (lookup-insert_self k (r k old v) m)
    ])
    | inr other ↦ elim (Option-cases (lookup j m)) [
      | inl absent ↦ rw (put_resolved, absent, ==_of_ne j k other) (lookup-insert_ne j k v m other)
      | inr (old, found) ↦
          rw (put_resolved, found, ==_of_ne j k other) (lookup-insert_ne j k (r j old v) m other)
    ]
  ]

  lookup-resolver_loop :
      (r : K → V → V → V) (k : K) (result m : List (K × V))
      → lookup k (resolver_loop r result m) ≡ reduce (r k) (lookup k result) (values k m)
  unfolding resolver_loop values
  lookup-resolver_loop r k result [] = refl
  lookup-resolver_loop r k result ((j, v) ∷ m) =
      lookup-resolver_loop r k (put_resolved r j v result) m
      ∙ ap (λ held. reduce (r k) held (values k m)) (lookup-put_resolved r k j v result)
      ∙ sym (reduce-values (r k) (lookup k result) k j v m)

  -- MapsWithResolver folds the values of each key with the resolver, in the order of the maps.
  pub lookup-maps_with_resolver :
      (r : K → V → V → V) (k : K) (ms : List (List (K × V)))
      → lookup k (maps_with_resolver r ms) ≡ reduce (r k) none (values k (slices ms))
  unfolding maps_with_resolver lookup
  lookup-maps_with_resolver r k ms = lookup-resolver_loop r k [] (slices ms)

  lookup-put_with :
      (s : Strategy) (k j : K) (v : V) (m : List (K × V))
      → lookup k (put_with s j v m)
        ≡ (if j == k then some (fold_value (settle s) (lookup k m) v) else lookup k m)
  unfolding put_with settle
  lookup-put_with s k j v m = elim (Option-cases (lookup j m)) [
    | inl absent ↦ grind (arith, lookup-insert j k v m, e.is_equal_iff j k)
    | inr (old, found) ↦ grind (arith, lookup-insert j k v m, e.is_equal_iff j k)
  ]

  lookup-strategy_loop :
      (s : Strategy) (k : K) (result m : List (K × V))
      → lookup k (strategy_loop s result m) ≡ reduce (settle s) (lookup k result) (values k m)
  unfolding strategy_loop values
  lookup-strategy_loop s k result [] = refl
  lookup-strategy_loop s k result ((j, v) ∷ m) =
      lookup-strategy_loop s k (put_with s j v result) m
      ∙ ap (λ held. reduce (settle s) held (values k m)) (lookup-put_with s k j v result)
      ∙ sym (reduce-values (settle s) (lookup k result) k j v m)

  maps_with-settle :
      (s : Strategy) (k : K) (ms : List (List (K × V)))
      → lookup k (maps_with_strategy s ms) ≡ reduce (settle s) none (values k (slices ms))
  unfolding maps_with_strategy lookup
  maps_with-settle s k ms = lookup-strategy_loop s k [] (slices ms)

  -- MapsWithStrategy leaves to a key, of the values that the maps have for it, the last with
  -- StrategyOverwrite and the first with StrategyKeep, and nothing to a key that no map has.
  pub lookup-maps_with_strategy :
      (k : K) (ms : List (List (K × V)))
      → (lookup k (maps_with_strategy strategy_overwrite ms) ≡ last (values k (slices ms)))
        × (lookup k (maps_with_strategy strategy_keep ms) ≡ first (values k (slices ms)))
  unfolding settle
  lookup-maps_with_strategy k ms = (
    maps_with-settle strategy_overwrite k ms ∙ reduce-last (values k (slices ms)),
    maps_with-settle strategy_keep k ms ∙ reduce-first (values k (slices ms)),
  )

module _ {ℓ κ} {K : Type ℓ} {V : Type κ} ⦃e : Comparable K⦄ where
  values_of-insert :
      (k j : K) (vs : List V) (m : List (K × List V))
      → values_of k (insert j vs m) ≡ (if j == k then vs else values_of k m)
  values_of-insert k j vs m = ground (arith, lookup-insert j k vs m)

  values_of-slice_values_loop :
      (k : K) (result m : List (K × List V))
      → values_of k (slice_values_loop result m) ≡ values_of k result ++ slices (values k m)
  unfolding slice_values_loop values
  values_of-slice_values_loop k result [] = sym (append-nil (values_of k result))
  values_of-slice_values_loop k result ((j, v) ∷ m) =
      let next = insert j (values_of j result ++ v) result in
      values_of-slice_values_loop k next m ∙ elim (eq-cases j k) [
        | inl same ↦
            rw
              (
                values,
                same,
                ==_refl k,
                values_of-insert k k (values_of k result ++ v) result,
                ==_refl k,
              )
              (append_assoc (values_of k result) v (slices (values k m)))
        | inr other ↦
            rw
              (
                values,
                ==_of_ne j k other,
                values_of-insert k j (values_of j result ++ v) result,
                ==_of_ne j k other,
              )
              refl
      ]

  -- MergeMapSliceValues joins, for each key, the slices that the maps have for it.
  pub values_of-merge_map_slice_values :
      (k : K) (ms : List (List (K × List V)))
      → values_of k (merge_map_slice_values ms) ≡ slices (values k (slices ms))
  unfolding merge_map_slice_values lookup
  values_of-merge_map_slice_values k ms = values_of-slice_values_loop k [] (slices ms)
