-- ===== src/Iam/Hierarchy.antt =====
-- services/iam-policy/internal/rbac/hierarchy.go. A map is an association list; a set that a
-- `map[string]bool` stands for is a list. Each loop runs on fuel, which `Cycle`, `Effective` and
-- `Ancestors` are about. A stored role is a value: the code keeps the caller's pointer.
mod Graph
mod Cycle
mod Acyclic
mod Detect
mod Ancestors
mod Collect
mod Effective
mod Tests
use microservices_base.Prelude.{
  ℕ, zero, suc, String, Bool, true, false, Option, none, some, List, [], ◌∷◌, ◌++◌, if◌then◌else◌,
  length, ◌||◌,
}
use microservices_base.Prelude.Eq.{◌==◌, member, comparable_string}
use microservices_base.Prelude.Assoc.{lookup, insert}

pub record Role : Type 0 where
  pub id : String
  pub name : String
  pub description : String
  pub parent_id : String
  pub permissions : List String

abbrev pub Roles : Type 0
Roles = List (String × Role)

pub record RoleHierarchy : Type 0 where
  pub roles : Roles
  pub permission_cache : List (String × List String)

unfoldable pub new_hierarchy : RoleHierarchy
new_hierarchy = record { roles = []; permission_cache = [] }

-- What a loop that follows the parents does at a role that is not stored, or has no parent, and
-- what it does with the parent.
abbrev pub at_parent {ℓ} : {A : Type ℓ} → Option Role → A → (Role → A) → A
at_parent none stop go = stop
at_parent (some role) stop go = if role.parent_id == "" then stop else go role

-- The loop of `wouldCreateCycle`; `none` when the fuel is used up.
pub cycle_loop : ℕ → Roles → String → List String → String → Option Bool
cycle_loop zero roles target visited current = none
cycle_loop (suc fuel) roles target visited current =
    let stored = lookup current roles in
    let next =
      at_parent stored (some false)
        (λ role. cycle_loop fuel roles target (current ∷ visited) role.parent_id) in
    if current == target then some true else if member current visited then some false else next

abbrev pub or_false : Option Bool → Bool
or_false none = false
or_false (some b) = b

unfoldable pub would_create_cycle : Roles → String → String → Bool
unfolding cycle_loop
would_create_cycle roles role_id parent_id =
    if role_id == parent_id
    then true
    else or_false (cycle_loop (suc (length roles)) roles role_id [] parent_id)

-- The error of `AddRole`.
pub record CircularError : Type 0 where
  pub role_id : String
  pub parent_id : String

abbrev store_role : Role → RoleHierarchy → RoleHierarchy
store_role role h = record { roles = insert role.id role h.roles; permission_cache = [] }

unfoldable pub add_role : Role → RoleHierarchy → RoleHierarchy × Option CircularError
add_role role h =
    if role.parent_id == ""
    then (store_role role h, none)
    else if would_create_cycle h.roles role.id role.parent_id
    then (h, some (record { role_id = role.id; parent_id = role.parent_id }))
    else (store_role role h, none)

unfoldable pub get_role : String → RoleHierarchy → Option Role
get_role id h = lookup id h.roles

-- The loop of `detectCycle`.
pub detect_loop : ℕ → Roles → List String → String → Option Bool
detect_loop zero roles visited current = none
detect_loop (suc fuel) roles visited current =
    let stored = lookup current roles in
    let next =
      at_parent stored (some false)
        (λ role. detect_loop fuel roles (current ∷ visited) role.parent_id) in
    if member current visited then some true else next

unfoldable pub detect_cycle : Roles → String → Bool
unfolding detect_loop
detect_cycle roles id = or_false (detect_loop (suc (length roles)) roles [] id)

-- The loop of `HasCircularDependency` over the stored roles.
pub any_cycle : Roles → Roles → Bool
any_cycle roles [] = false
any_cycle roles ((id, _) ∷ rest) = detect_cycle roles id || any_cycle roles rest

unfoldable pub has_circular_dependency : RoleHierarchy → Bool
unfolding any_cycle
has_circular_dependency h = any_cycle h.roles h.roles

-- `permissions[p] = true` for each of the permissions.
unfoldable pub grant_all : List String → List String → List String
grant_all [] granted = granted
grant_all (p ∷ ps) granted = grant_all ps (if member p granted then granted else p ∷ granted)

-- What `collectPermissions` does after it has marked the role as visited.
abbrev visit_role :
    Option Role → List String → (Role → List String → Option (List String)) → Option (List String)
visit_role none granted go = some granted
visit_role (some role) granted go =
    if role.parent_id == ""
    then some (grant_all role.permissions granted)
    else go role (grant_all role.permissions granted)

-- `collectPermissions`; `none` when the fuel is used up.
pub collect_permissions : ℕ → Roles → List String → List String → String → Option (List String)
collect_permissions zero roles visited granted id = none
collect_permissions (suc fuel) roles visited granted id =
    let stored = lookup id roles in
    let next =
      visit_role stored granted
        (λ role all. collect_permissions fuel roles (id ∷ visited) all role.parent_id) in
    if member id visited then some granted else next

abbrev pub or_empty : Option (List String) → List String
or_empty none = []
or_empty (some xs) = xs

-- `GetEffectivePermissions` when the cache has no entry: one step under the write lock.
unfoldable pub compute_permissions : String → RoleHierarchy → RoleHierarchy × List String
unfolding collect_permissions
compute_permissions id h =
    let result = or_empty (collect_permissions (suc (length h.roles)) h.roles [] [] id) in
    (record h { permission_cache = insert id result h.permission_cache }, result)

-- `GetEffectivePermissions`: the read of the cache, and the computation when it misses.
unfoldable pub get_effective_permissions : String → RoleHierarchy → RoleHierarchy × List String
get_effective_permissions id h = elim (lookup id h.permission_cache) [
  | some cached ↦ (h, cached)
  | none ↦ compute_permissions id h
]

unfoldable pub has_permission : String → String → RoleHierarchy → RoleHierarchy × Bool
has_permission id permission h =
    let (h', permissions) = get_effective_permissions id h in (h', member permission permissions)

-- The loop of `GetAncestors`.
pub ancestors_loop : ℕ → Roles → List String → List String → String → Option (List String)
ancestors_loop zero roles visited found current = none
ancestors_loop (suc fuel) roles visited found current =
    let stored = lookup current roles in
    let next = at_parent stored (some found) (λ role.
      ancestors_loop fuel roles (current ∷ visited) (found ++ role.parent_id ∷ [])
        role.parent_id) in
    if member current visited then some found else next

unfoldable pub get_ancestors : String → RoleHierarchy → List String
unfolding ancestors_loop
get_ancestors id h = or_empty (ancestors_loop (suc (length h.roles)) h.roles [] [] id)

unfoldable pub role_count : RoleHierarchy → ℕ
role_count h = length h.roles
