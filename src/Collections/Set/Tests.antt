-- ===== src/Collections/Set/Tests.antt =====
-- Runs of set.go.
use microservices_base.Prelude.{ℕ, ◌≡◌, ◌↔◌, refl, true, [], ◌∷◌, ltb, if◌then◌else◌}
use microservices_base.Prelude.Eq.{comparable_nat}
use microservices_base.Prelude.Assoc.{insert, lookup}
use microservices_base.Collections.Set.{
  add, add_where, contains, equals, set_from, set_map, to_slice, keys,
}
use microservices_base.Collections.Set.Build.{
  Made, made_from, adding, parting, subtracting, uniting, make, holds, contains-make,
}
use microservices_base.Collections.Set.Equal.{equals-make_iff}

set_map_run :
    to_slice (set_map (set_from (1 ∷ 2 ∷ 3 ∷ [])) (λ n. if ltb n 3 then 0 else n)) ≡ 0 ∷ 3 ∷ []
unfolding set_map set_from add_where add insert to_slice keys lookup
set_map_run = refl

abbrev left : Made ℕ
left = made_from (4 ∷ 7 ∷ 4 ∷ [])

abbrev right : Made ℕ
right = adding 9 (made_from (7 ∷ []))

contains-make_example : contains 9 (make (parting left right)) ≡ true
contains-make_example = contains-make 9 (parting left right)

equals-make_iff_example :
    (equals
        (make (parting left right))
        (make (uniting (subtracting left right) (subtracting right left)))
      ≡ true)
    ↔ ((x : ℕ)
        → holds x (parting left right)
          ≡ holds x (uniting (subtracting left right) (subtracting right left)))
equals-make_iff_example =
    equals-make_iff (parting left right) (uniting (subtracting left right) (subtracting right left))
