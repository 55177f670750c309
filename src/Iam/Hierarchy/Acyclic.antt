-- ===== src/Iam/Hierarchy/Acyclic.antt =====
-- `AddRole` and cycles of parents.
use microservices_base.Prelude.{
  ◌≡◌, ◌≢◌, refl, sym, false, String, ◌⊎◌, ◌↔◌, inl, inr, ◌∙◌, subst, is_none, Bool-cases,
}
use microservices_base.Prelude.Eq.{◌==◌, comparable_string, eq_of_==, ne_of_==, eq-cases}
use microservices_base.Prelude.Assoc.{insert, lookup-insert_self, lookup-insert_ne}
use microservices_base.Iam.Hierarchy.{Role, Roles, RoleHierarchy, add_role, would_create_cycle}
use microservices_base.Iam.Hierarchy.Graph.{
  HasParent, Reach, here, up, Reach-cases, Reach-trans, Above, above, Acyclic, Reach-of_eq,
}
use microservices_base.Iam.Hierarchy.Cycle.{would_create_cycle_iff}

module _ (id : String) (role : Role) (roles : Roles) where
  -- Away from the stored role, a parent after `h.roles[role.ID] = role` was one before.
  old_parent : {a p : String} → id ≢ a → HasParent (insert id role roles) a p → HasParent roles a p
  old_parent {a} other h = record {
    role = h.role;
    stored = sym (lookup-insert_ne id a role roles other) ∙ h.stored;
    named = h.named;
    present = h.present;
  }

  -- The stored role's parent is the given one.
  new_parent : {p : String} → HasParent (insert id role roles) id p → role.parent_id ≡ p
  new_parent h = cc (lookup-insert_self id role roles, h.stored, h.named)

  -- A walk to the stored role needs no edge of it.
  old_walk_to : {a c : String} → Reach (insert id role roles) a c → c ≡ id → Reach roles a c
  old_walk_to here e = here
  old_walk_to {a} {c} (up h r) e = elim (eq-cases id a) [
    | inl at_id ↦ rw (e ∙ at_id) here
    | inr other ↦ up (old_parent other h) (old_walk_to r e)
  ]

  -- Any other walk is an old one, or passes the stored role.
  split_walk :
      {a c : String}
      → Reach (insert id role roles) a c
      → Reach roles a c ⊎ (Reach (insert id role roles) a id × Reach (insert id role roles) id c)
  split_walk here = inl here
  split_walk {a} {c} (up h r) = elim (eq-cases id a) [
    | inl at_id ↦ inr (Reach-of_eq (sym at_id), Reach-trans (Reach-of_eq at_id) (up h r))
    | inr other ↦ elim (split_walk r) [
      | inl old ↦ inl (up (old_parent other h) old)
      | inr (to_id, from_id) ↦ inr (up h to_id, from_id)
    ]
  ]

  -- A cycle through the stored role goes through its parent.
  cycle_at_id :
      ((p : String) → HasParent (insert id role roles) id p → ¬ Reach roles p id)
      → ¬ Above (insert id role roles) id id
  cycle_at_id away (above {b} h r) = away b h (old_walk_to r refl)

  insert-Acyclic :
      Acyclic roles
      → ((p : String) → HasParent (insert id role roles) id p → ¬ Reach roles p id)
      → Acyclic (insert id role roles)
  insert-Acyclic old away a (above {b} h r) = elim (eq-cases id a) [
    | inl at_id ↦
        cycle_at_id away (subst (λ x. Above (insert id role roles) x x) (sym at_id) (above h r))
    | inr other ↦ elim (split_walk r) [
      | inl walk ↦ old a (above (old_parent other h) walk)
      | inr (to_id, from_id) ↦ elim (Reach-cases from_id) [
        | inl at_a ↦ other at_a
        | inr (p, k, rest) ↦ cycle_at_id away (above k (Reach-trans rest (up h to_id)))
      ]
    ]
  ]

store-Acyclic :
    (role : Role) (roles : Roles)
    → Acyclic roles
    → would_create_cycle roles role.id role.parent_id ≡ false
    → Acyclic (insert role.id role roles)
store-Acyclic role roles old refused = insert-Acyclic role.id role roles old (λ p h r. cc (
  refused,
  (would_create_cycle_iff roles role.id role.parent_id).1.1
      (Reach-trans (Reach-of_eq (new_parent role.id role roles h)) r),
))

-- A role with no parent is below no other.
root-Acyclic :
    (role : Role) (roles : Roles)
    → Acyclic roles
    → role.parent_id ≡ ""
    → Acyclic (insert role.id role roles)
root-Acyclic role roles old root =
    insert-Acyclic role.id role roles old
      (λ p h r. h.present (sym (new_parent role.id role roles h) ∙ root))

-- `AddRole` keeps the parents free of cycles, whatever role it is given; and it refuses a role,
-- with the hierarchy unchanged, exactly when the role names a parent from which the role's own
-- identifier is already reached along parents.
pub add_role-Acyclic :
    (role : Role) (h : RoleHierarchy)
    → Acyclic h.roles
    → Acyclic (add_role role h).0.roles
      × ((is_none (add_role role h).1 ≡ false)
          ↔ ((role.parent_id ≢ "") × Reach h.roles role.parent_id role.id))
      × ((is_none (add_role role h).1 ≡ false) → (add_role role h).0 ≡ h)
unfolding add_role
add_role-Acyclic role h old = elim (Bool-cases (role.parent_id == "")) [
  | inl root ↦
      let no_parent = eq_of_== role.parent_id "" root in
      rw root (
        root-Acyclic role h.roles old no_parent,
        ((λ e. cc), (λ w. absurd (w.0 no_parent))),
        (λ e. cc),
      )
  | inr child ↦ elim (Bool-cases (would_create_cycle h.roles role.id role.parent_id)) [
    | inl cycle ↦
        rw (child, cycle)
          (
            old,
            (
              (λ e. (
                ne_of_== role.parent_id "" child,
                (would_create_cycle_iff h.roles role.id role.parent_id).1.0 cycle,
              )),
              (λ w. refl),
            ),
            (λ e. refl),
          )
    | inr fine ↦
        rw (child, fine)
          (
            store-Acyclic role h.roles old fine,
            (
              (λ e. cc),
              (λ w. cc (fine, (would_create_cycle_iff h.roles role.id role.parent_id).1.1 w.1)),
            ),
            (λ e. cc),
          )
  ]
]
