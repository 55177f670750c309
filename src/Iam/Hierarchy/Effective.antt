-- ===== src/Iam/Hierarchy/Effective.antt =====
-- `GetEffectivePermissions`, `HasPermission` and their cache.
use microservices_base.Prelude.{
  suc, ◌≡◌, refl, sym, true, some, String, List, [], ◌∷◌, ◌↔◌, inl, inr, arith, ◌∙◌, Bool-cases,
  Option-cases, length,
}
use microservices_base.Prelude.Eq.{◌==◌, member, comparable_string, eq-cases}
use microservices_base.Prelude.Assoc.{
  lookup, insert, unseen-nil, lookup-insert_self, lookup-insert_ne,
}
use microservices_base.Iam.Hierarchy.{
  Role, RoleHierarchy, compute_permissions, get_effective_permissions, has_permission, add_role,
  new_hierarchy, would_create_cycle,
}
use microservices_base.Iam.Hierarchy.Cycle.{IsTrail-nil}
use microservices_base.Iam.Hierarchy.Collect.{Holds, GrantedOrHeld, collect_permissions_lem}

-- What the cache of a hierarchy holds is what a fresh computation gives.
pub record IsFresh (h : RoleHierarchy) : Type 0 where
  pub entries :
      (id : String) (cached : List String)
      → lookup id h.permission_cache ≡ some cached
      → (x : String) → (member x cached ≡ true) ↔ Holds h.roles id x

compute_permissions_iff :
    (id : String) (h : RoleHierarchy) (x : String)
    → (member x (compute_permissions id h).1 ≡ true) ↔ Holds h.roles id x
unfolding compute_permissions
compute_permissions_iff id h x =
    let (r, ends, iff) =
      collect_permissions_lem h.roles (suc (length h.roles)) [] [] id
        (omega (arith, unseen-nil h.roles)) (IsTrail-nil h.roles id)
        (record { listed = λ a y role m s l. cc }) in
    rw ends ((λ m. only ((iff x).0 m)), (λ w. (iff x).1 (inr w)))
  where
    only : GrantedOrHeld h.roles [] id x → Holds h.roles id x
    only (inl m) = cc
    only (inr w) = w

compute_permissions_cached :
    (id : String) (h : RoleHierarchy)
    → ((compute_permissions id h).0.roles ≡ h.roles)
      × ((compute_permissions id h).0.permission_cache
          ≡ insert id (compute_permissions id h).1 h.permission_cache)
unfolding compute_permissions
compute_permissions_cached id h = (refl, refl)

compute_permissions-IsFresh :
    (id : String) (h : RoleHierarchy) → IsFresh h → IsFresh (compute_permissions id h).0
compute_permissions-IsFresh id h f =
    let (same, stored) = compute_permissions_cached id h in
    record {
      entries = λ j cached s x. rw same (elim (eq-cases id j) [
        | inl here_ ↦
            let found = rw (stored, ← here_) at s in
            let e : (compute_permissions id h).1 ≡ cached =
              cc (lookup-insert_self id (compute_permissions id h).1 h.permission_cache, found) in
            rw (← e, ← here_) (compute_permissions_iff id h x)
        | inr other ↦
            f.entries j cached
              (sym (lookup-insert_ne id j (compute_permissions id h).1 h.permission_cache other)
                ∙ (rw stored at s))
              x
      ]);
    }

add_role-IsFresh : (role : Role) (h : RoleHierarchy) → IsFresh h → IsFresh (add_role role h).0
unfolding add_role lookup
add_role-IsFresh role h f = elim (Bool-cases (role.parent_id == "")) [
  | inl root ↦ rw root (record { entries = λ id cached s x. cc })
  | inr child ↦ elim (Bool-cases (would_create_cycle h.roles role.id role.parent_id)) [
    | inl cycle ↦ rw (child, cycle) f
    | inr fine ↦ rw (child, fine) (record { entries = λ id cached s x. cc })
  ]
]

get_effective_permissions-IsFresh :
    (id : String) (h : RoleHierarchy) → IsFresh h → IsFresh (get_effective_permissions id h).0
unfolding get_effective_permissions
get_effective_permissions-IsFresh id h f = elim (Option-cases (lookup id h.permission_cache)) [
  | inl missing ↦ rw (missing, get_effective_permissions) (compute_permissions-IsFresh id h f)
  | inr (cached, hit) ↦ rw (hit, get_effective_permissions) f
]

get_effective_permissions_iff :
    (id : String) (h : RoleHierarchy)
    → IsFresh h
    → (x : String) → (member x (get_effective_permissions id h).1 ≡ true) ↔ Holds h.roles id x
unfolding get_effective_permissions
get_effective_permissions_iff id h f x = elim (Option-cases (lookup id h.permission_cache)) [
  | inl missing ↦ rw (missing, get_effective_permissions) (compute_permissions_iff id h x)
  | inr (cached, hit) ↦ rw (hit, get_effective_permissions) (f.entries id cached hit x)
]

-- What callers do with a hierarchy, in any order. A lookup that misses the cache computes in a
-- step of its own, between which and the read of the cache others may step.
pub data Op : Type 0 where
  add : Role → Op
  look_up : String → Op
  compute : String → Op

abbrev pub do_op : Op → RoleHierarchy → RoleHierarchy
do_op (add role) h = (add_role role h).0
do_op (look_up id) h = (get_effective_permissions id h).0
do_op (compute id) h = (compute_permissions id h).0

abbrev pub do_all : List Op → RoleHierarchy → RoleHierarchy
do_all [] h = h
do_all (op ∷ ops) h = do_all ops (do_op op h)

do_all-IsFresh : (ops : List Op) (h : RoleHierarchy) → IsFresh h → IsFresh (do_all ops h)
do_all-IsFresh [] h f = f
do_all-IsFresh (add role ∷ ops) h f =
    do_all-IsFresh ops (add_role role h).0 (add_role-IsFresh role h f)
do_all-IsFresh (look_up id ∷ ops) h f =
    do_all-IsFresh ops (get_effective_permissions id h).0 (get_effective_permissions-IsFresh id h f)
do_all-IsFresh (compute id ∷ ops) h f =
    do_all-IsFresh ops (compute_permissions id h).0 (compute_permissions-IsFresh id h f)

new-IsFresh : IsFresh new_hierarchy
unfolding new_hierarchy lookup
new-IsFresh = record { entries = λ id cached s x. cc }

-- After any sequence of role additions and lookups, in any interleaving of their steps,
-- `HasPermission` answers true exactly if the role, or a role above it, is stored and lists the
-- permission: no cached answer is out of date, and the walk up the parents ends within its fuel.
pub has_permission_iff :
    (ops : List Op) (id permission : String)
    → ((has_permission id permission (do_all ops new_hierarchy)).1 ≡ true)
      ↔ Holds (do_all ops new_hierarchy).roles id permission
unfolding has_permission
has_permission_iff ops id permission =
    let h = do_all ops new_hierarchy in
    get_effective_permissions_iff id h (do_all-IsFresh ops new_hierarchy new-IsFresh) permission
