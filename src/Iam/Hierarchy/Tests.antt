-- ===== src/Iam/Hierarchy/Tests.antt =====
-- The role hierarchy at concrete inputs.
use microservices_base.Prelude.{
  ◌≡◌, ◌≢◌, refl, ◌↔◌, Bool, true, false, String, List, [], ◌∷◌, is_none, suc, length, some,
}
use microservices_base.Prelude.Eq.{member, comparable_string}
use microservices_base.Prelude.Assoc.{lookup, insert}
use microservices_base.Iam.Hierarchy.{
  Role, RoleHierarchy, new_hierarchy, add_role, would_create_cycle, detect_cycle,
  has_circular_dependency, get_ancestors, has_permission, compute_permissions,
  get_effective_permissions, cycle_loop, grant_all,
}
use microservices_base.Iam.Hierarchy.Graph.{Acyclic, Reach, Above}
use microservices_base.Iam.Hierarchy.Cycle.{would_create_cycle_iff}
use microservices_base.Iam.Hierarchy.Acyclic.{add_role-Acyclic}
use microservices_base.Iam.Hierarchy.Detect.{
  build_from, built_no_cycle, has_circular_dependency_iff,
}
use microservices_base.Iam.Hierarchy.Ancestors.{get_ancestors_iff}
use microservices_base.Iam.Hierarchy.Collect.{Holds}
use microservices_base.Iam.Hierarchy.Effective.{Op, add, look_up, do_all, has_permission_iff}

program : Unit {0}
unfolding grant_all new_hierarchy add_role would_create_cycle detect_cycle has_circular_dependency
    get_ancestors has_permission compute_permissions get_effective_permissions lookup insert
program = tt

abbrev role : String → String → List String → Role
role id parent permissions = record {
  id = id;
  name = id;
  description = "";
  parent_id = parent;
  permissions = permissions;
}

abbrev staff : List Role
staff =
    role "editor" "viewer" ("write" ∷ [])
    ∷ role "viewer" "" ("read" ∷ [])
    ∷ role "viewer" "editor" []
    ∷ []

abbrev hierarchy : RoleHierarchy
hierarchy = build_from new_hierarchy staff

viewer_refused : is_none (add_role (role "viewer" "editor" []) hierarchy).1 ≡ false
unfolding program
viewer_refused = refl

-- Two roles that name each other, which AddRole does not make.
abbrev tangled : RoleHierarchy
tangled = record new_hierarchy { roles = ("a", role "a" "b" []) ∷ ("b", role "b" "a" []) ∷ [] }

has_circular_dependency_iff_example :
    (has_circular_dependency tangled ≡ true) ↔ ((a : String) × Above tangled.roles a a)
has_circular_dependency_iff_example = has_circular_dependency_iff tangled

built_no_cycle_example : Acyclic hierarchy.roles × (has_circular_dependency hierarchy ≡ false)
built_no_cycle_example = built_no_cycle staff

would_create_cycle_iff_example :
    ((b : Bool) × (cycle_loop (suc (length hierarchy.roles)) hierarchy.roles "viewer" [] "editor"
        ≡ some b))
    × ((would_create_cycle hierarchy.roles "viewer" "editor" ≡ true)
        ↔ Reach hierarchy.roles "editor" "viewer")
would_create_cycle_iff_example = would_create_cycle_iff hierarchy.roles "viewer" "editor"

add_role-Acyclic_example :
    let r = role "viewer" "editor" [] in
    Acyclic (add_role r hierarchy).0.roles
    × ((is_none (add_role r hierarchy).1 ≡ false)
        ↔ ((r.parent_id ≢ "") × Reach hierarchy.roles r.parent_id r.id))
    × ((is_none (add_role r hierarchy).1 ≡ false) → (add_role r hierarchy).0 ≡ hierarchy)
add_role-Acyclic_example =
    add_role-Acyclic (role "viewer" "editor" []) hierarchy built_no_cycle_example.0

get_ancestors_iff_example :
    (member "viewer" (get_ancestors "editor" hierarchy) ≡ true)
    ↔ Above hierarchy.roles "editor" "viewer"
get_ancestors_iff_example = get_ancestors_iff "editor" "viewer" hierarchy

abbrev session : List Op
session =
    add (role "editor" "viewer" ("write" ∷ []))
    ∷ look_up "editor"
    ∷ add (role "viewer" "" ("read" ∷ []))
    ∷ []

editor_reads : (has_permission "editor" "read" (do_all session new_hierarchy)).1 ≡ true
unfolding program
editor_reads = refl

has_permission_iff_example :
    ((has_permission "editor" "read" (do_all session new_hierarchy)).1 ≡ true)
    ↔ Holds (do_all session new_hierarchy).roles "editor" "read"
has_permission_iff_example = has_permission_iff session "editor" "read"
