-- ===== src/Iam/Hierarchy/Detect.antt =====
-- `HasCircularDependency`.
use microservices_base.Prelude.{
  ℕ, zero, suc, ◌<◌, ◌≡◌, refl, Bool, true, false, some, String, List, [], ◌∷◌, ◌↔◌, inl, inr,
  arith, ◌∙◌, Bool-cases, length,
}
use microservices_base.Prelude.Eq.{◌==◌, member, comparable_string, eq_of_==}
use microservices_base.Prelude.Assoc.{lookup, unseen, unseen-nil, unseen-cons}
use microservices_base.Iam.Hierarchy.{
  Role, Roles, RoleHierarchy, add_role, detect_loop, detect_cycle, any_cycle,
  has_circular_dependency, new_hierarchy,
}
use microservices_base.Iam.Hierarchy.Graph.{
  HasParent, Reach, here, up, Above, above, Above-extend, Acyclic, parent-cases, walk_on,
}
use microservices_base.Iam.Hierarchy.Acyclic.{add_role-Acyclic}

-- A cycle that the walk from a role runs into.
abbrev pub RunsIntoCycle : Roles → String → Type 0
RunsIntoCycle roles c = (a : String) × Reach roles c a × Above roles a a

-- Every visited role is below the one where the loop stands.
pub record AllBelow (roles : Roles) (visited : List String) (current : String) : Type 0 where
  pub below : (v : String) → member v visited ≡ true → Above roles v current

AllBelow-cons :
    (roles : Roles) (visited : List String) (c p : String)
    → AllBelow roles visited c
    → HasParent roles c p
    → AllBelow roles (c ∷ visited) p
AllBelow-cons roles visited c p t h = record {
  below = λ v m. elim (Bool-cases (c == v)) [
    | inl same ↦ rw (← eq_of_== c v same) (above h here)
    | inr other ↦ Above-extend (t.below v (rw other at m)) h
  ];
}

module _ (roles : Roles) where
  -- The loop ends; it answers true only for a walk into a cycle, and false for no such walk.
  detect_loop_lem :
      (fuel : ℕ) (visited : List String) (current : String)
      → unseen visited roles < fuel
      → AllBelow roles visited current
      → (b : Bool) × (detect_loop fuel roles visited current ≡ some b)
        × ((b ≡ true) ↔ RunsIntoCycle roles current)
  unfolding detect_loop
  detect_loop_lem zero visited current f t = absurd (omega arith)
  detect_loop_lem (suc fuel) visited current f t = elim (Bool-cases (member current visited)) [
    | inl back ↦ (true, rw back, ((λ e. (current, here, t.below current back)), (λ w. refl)))
    | inr new ↦ elim (parent-cases roles current) [
      | inr (top, stops) ↦
          (false, rw new (stops _ _ _), ((λ e. cc), (λ w. absurd (no_cycle top w))))
      | inl (role, stored, has, goes) ↦
          let fewer = unseen-cons current visited roles new stored in
          let (b, ends, iff) =
            detect_loop_lem fuel (current ∷ visited) role.parent_id (omega arith)
              (AllBelow-cons roles visited current role.parent_id t has) in
          (
            b,
            rw new (goes _ _ _ ∙ ends),
            (
              (λ e. let (a, r, cycle) = iff.0 e in (a, up has r, cycle)),
              (λ w. iff.1 (w.0, walk_on has w.1 w.2, w.2)),
            ),
          )
    ]
  ]
    where
      no_cycle : ((p : String) → ¬ HasParent roles current p) → ¬ RunsIntoCycle roles current
      no_cycle top (a, here, above h r) = top _ h
      no_cycle top (a, up h r, cycle) = top _ h

-- `detectCycle` answers true exactly for a role whose parents run into a cycle.
pub detect_cycle_iff :
    (roles : Roles) (id : String) → (detect_cycle roles id ≡ true) ↔ RunsIntoCycle roles id
unfolding detect_cycle
detect_cycle_iff roles id =
    let (b, ends, iff) =
      detect_loop_lem roles (suc (length roles)) [] id (omega (arith, unseen-nil roles))
        (record { below = λ v m. cc }) in
    rw ends iff

any_cycle-Acyclic : (roles rest : Roles) → Acyclic roles → any_cycle roles rest ≡ false
unfolding any_cycle
any_cycle-Acyclic roles [] acyclic = refl
any_cycle-Acyclic roles ((id, role) ∷ rest) acyclic = elim (Bool-cases (detect_cycle roles id)) [
  | inl cycle ↦ let (a, r, loop) = (detect_cycle_iff roles id).0 cycle in absurd (acyclic a loop)
  | inr none_found ↦ rw none_found (any_cycle-Acyclic roles rest acyclic)
]

any_cycle-sound :
    (roles rest : Roles) → any_cycle roles rest ≡ true → (a : String) × Above roles a a
unfolding any_cycle
any_cycle-sound roles [] h = cc h
any_cycle-sound roles ((id, role) ∷ rest) h = elim (Bool-cases (detect_cycle roles id)) [
  | inl cycle ↦ let (a, r, loop) = (detect_cycle_iff roles id).0 cycle in (a, loop)
  | inr none_found ↦ any_cycle-sound roles rest (rw (any_cycle, none_found) at h)
]

any_cycle-found :
    (roles rest : Roles) (a : String) {role : Role}
    → lookup a rest ≡ some role
    → detect_cycle roles a ≡ true
    → any_cycle roles rest ≡ true
unfolding any_cycle lookup
any_cycle-found roles [] a h d = cc h
any_cycle-found roles ((id, first) ∷ rest) a h d = elim (Bool-cases (id == a)) [
  | inl same ↦ rw (any_cycle, eq_of_== id a same, d) refl
  | inr other ↦
      let later = any_cycle-found roles rest a (rw (lookup, other) at h) d in ground (arith, later)
]

-- `HasCircularDependency` answers true exactly where some role is above itself, whatever the roles of
-- the hierarchy are.
pub has_circular_dependency_iff :
    (h : RoleHierarchy) → (has_circular_dependency h ≡ true) ↔ ((a : String) × Above h.roles a a)
unfolding has_circular_dependency
has_circular_dependency_iff h = (
  any_cycle-sound h.roles h.roles,
  λ (a, cycle). elim cycle as (λ _. any_cycle h.roles h.roles ≡ true) [
    | above p r ↦
        any_cycle-found h.roles h.roles a p.stored ((detect_cycle_iff h.roles a).1 (a, here, cycle))
  ],
)

-- A hierarchy after `AddRole` of each of the roles, whether it was accepted or not.
abbrev pub build_from : RoleHierarchy → List Role → RoleHierarchy
build_from h [] = h
build_from h (role ∷ roles) = build_from (add_role role h).0 roles

build_from-Acyclic :
    (h : RoleHierarchy) (roles : List Role) → Acyclic h.roles → Acyclic (build_from h roles).roles
build_from-Acyclic h [] a = a
build_from-Acyclic h (role ∷ roles) a =
    build_from-Acyclic (add_role role h).0 roles (add_role-Acyclic role h a).0

new-Acyclic : Acyclic new_hierarchy.roles
unfolding new_hierarchy lookup
new-Acyclic a (above h r) = cc h.stored

-- Whatever roles are added to a new hierarchy, in whatever order, no role is above itself and
-- `HasCircularDependency` answers false.
pub built_no_cycle :
    (roles : List Role)
    → Acyclic (build_from new_hierarchy roles).roles
      × (has_circular_dependency (build_from new_hierarchy roles) ≡ false)
unfolding has_circular_dependency
built_no_cycle roles =
    let a = build_from-Acyclic new_hierarchy roles new-Acyclic in
    let built = (build_from new_hierarchy roles).roles in (a, any_cycle-Acyclic built built a)
