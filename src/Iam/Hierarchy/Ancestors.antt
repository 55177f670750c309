-- ===== src/Iam/Hierarchy/Ancestors.antt =====
-- What `GetAncestors` lists.
use microservices_base.Prelude.{
  ℕ, zero, suc, ◌<◌, ◌≡◌, refl, sym, Bool, true, false, some, String, List, [], ◌∷◌, ◌++◌, ◌↔◌,
  ◌||◌, ◌⊎◌, inl, inr, arith, ◌∙◌, Bool-cases, length,
}
use microservices_base.Prelude.Eq.{
  ◌==◌, member, comparable_string, eq_of_==, ==_refl, member-concat,
}
use microservices_base.Prelude.Assoc.{unseen, unseen-nil, unseen-cons}
use microservices_base.Iam.Hierarchy.{Roles, RoleHierarchy, ancestors_loop, get_ancestors}
use microservices_base.Iam.Hierarchy.Graph.{
  HasParent, Reach, here, up, Above, above, parent-cases, parent_unique,
}
use microservices_base.Iam.Hierarchy.Cycle.{IsTrail, IsTrail-nil, IsTrail-cons}

-- The parents of the visited roles are found.
pub record AllFound (roles : Roles) (visited found : List String) : Type 0 where
  pub parents :
      (a p : String) → member a visited ≡ true → HasParent roles a p → member p found ≡ true

pub or_left : (a b : Bool) → a ≡ true → (a || b) ≡ true
or_left a b h = ground arith

pub or_right : (a b : Bool) → b ≡ true → (a || b) ≡ true
or_right a b h = ground arith

pub or-cases : (a b : Bool) → (a || b) ≡ true → (a ≡ true) ⊎ (b ≡ true)
or-cases true b h = inl refl
or-cases false b h = inr h

member_left :
    (a x : String) (xs : List String) → member a xs ≡ true → member a (xs ++ x ∷ []) ≡ true
member_left a x xs h = member-concat a x xs ∙ or_left _ _ h

member_last : (a x : String) (xs : List String) → x ≡ a → member a (xs ++ x ∷ []) ≡ true
member_last a x xs e = member-concat a x xs ∙ or_right (member a xs) (x == a) (rw e (==_refl a))

AllFound-cons :
    (roles : Roles) (visited found : List String) (c p : String)
    → AllFound roles visited found
    → HasParent roles c p
    → AllFound roles (c ∷ visited) (found ++ p ∷ [])
AllFound-cons roles visited found c p t h = record {
  parents = λ a q m k. elim (Bool-cases (c == a)) [
    | inl same ↦ member_last q p found (parent_unique h (rw (eq_of_== c a same) k))
    | inr other ↦ member_left q p found (t.parents a q (rw other at m) k)
  ];
}

-- Once the loop is back at a visited role, all that is above a visited role is found.
found_above :
    {roles : Roles} {a c b : String} (visited found : List String) (current : String)
    → IsTrail roles visited current
    → AllFound roles visited found
    → member current visited ≡ true
    → member a visited ≡ true
    → HasParent roles a b
    → Reach roles b c
    → member c found ≡ true
found_above visited found current t f back m h here = f.parents _ _ m h
found_above {a} {b = b} visited found current t f back m h (up k r) = elim (t.closed a b m h) [
  | inl seen ↦ found_above visited found current t f back seen k r
  | inr at_current ↦ found_above visited found current t f back (rw at_current back) k r
]

abbrev pub FoundOrAbove : Roles → List String → String → String → Type 0
FoundOrAbove roles found current p = (member p found ≡ true) ⊎ Above roles current p

module _ (roles : Roles) where
  ancestors_loop_lem :
      (fuel : ℕ) (visited found : List String) (current : String)
      → unseen visited roles < fuel
      → IsTrail roles visited current
      → AllFound roles visited found
      → (r : List String) × (ancestors_loop fuel roles visited found current ≡ some r)
        × ((p : String) → (member p r ≡ true) ↔ FoundOrAbove roles found current p)
  unfolding ancestors_loop
  ancestors_loop_lem zero visited found current less t f = absurd (omega arith)
  ancestors_loop_lem (suc fuel) visited found current less t f =
      elim (Bool-cases (member current visited)) [
        | inl back ↦ (found, rw back, (λ p. ((λ m. inl m), already back)))
        | inr new ↦ elim (parent-cases roles current) [
          | inr (top, stops) ↦ (found, rw new (stops _ _ _), (λ p. ((λ m. inl m), at_top top)))
          | inl (role, stored, has, goes) ↦
              let fewer = unseen-cons current visited roles new stored in
              let (r, ends, iff) =
                ancestors_loop_lem fuel (current ∷ visited) (found ++ role.parent_id ∷ [])
                  role.parent_id (omega arith)
                  (IsTrail-cons roles visited current role.parent_id t has)
                  (AllFound-cons roles visited found current role.parent_id f has) in
              (
                r,
                rw new (goes _ _ _ ∙ ends),
                (λ p. (
                  (λ m. earlier role.parent_id has ((iff p).0 m)),
                  (λ w. (iff p).1 (later role.parent_id has w)),
                )),
              )
        ]
      ]
    where
      already :
          {p : String}
          → member current visited ≡ true
          → FoundOrAbove roles found current p
          → member p found ≡ true
      already back (inl m) = m
      already back (inr (above h r)) = found_above visited found current t f back back h r

      at_top :
          {p : String}
          → ((q : String) → ¬ HasParent roles current q)
          → FoundOrAbove roles found current p
          → member p found ≡ true
      at_top top (inl m) = m
      at_top top (inr (above h r)) = absurd (top _ h)

      earlier :
          {p : String} (parent : String)
          → HasParent roles current parent
          → FoundOrAbove roles (found ++ parent ∷ []) parent p
          → FoundOrAbove roles found current p
      earlier {p} parent h (inl m) =
          elim (or-cases (member p found) (parent == p) (sym (member-concat p parent found) ∙ m)) [
            | inl old ↦ inl old
            | inr last ↦ inr (above h (rw (eq_of_== parent p last) here))
          ]
      earlier parent h (inr (above k r)) = inr (above h (up k r))

      later :
          {p : String} (parent : String)
          → HasParent roles current parent
          → FoundOrAbove roles found current p
          → FoundOrAbove roles (found ++ parent ∷ []) parent p
      later {p} parent h (inl m) = inl (member_left p parent found m)
      later {p} parent h (inr (above k here)) = inl (member_last p parent found (parent_unique h k))
      later {p} parent h (inr (above k (up j r))) = inr (above (rw (parent_unique h k) j) r)

-- `GetAncestors` ends within its fuel and lists exactly the roles above the given one, in any
-- hierarchy, with or without cycles.
pub get_ancestors_iff :
    (id p : String) (h : RoleHierarchy)
    → (member p (get_ancestors id h) ≡ true) ↔ Above h.roles id p
unfolding get_ancestors
get_ancestors_iff id p h =
    let (r, ends, iff) =
      ancestors_loop_lem h.roles (suc (length h.roles)) [] [] id (omega (arith, unseen-nil h.roles))
        (IsTrail-nil h.roles id) (record { parents = λ a q m k. cc }) in
    rw ends ((λ m. only ((iff p).0 m)), (λ w. (iff p).1 (inr w)))
  where
    only : FoundOrAbove h.roles [] id p → Above h.roles id p
    only (inl m) = cc
    only (inr w) = w
