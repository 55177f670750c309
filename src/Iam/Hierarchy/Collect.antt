-- ===== src/Iam/Hierarchy/Collect.antt =====
-- What `collectPermissions` gathers.
use text.Mathlib.TextEquality.{eq_iff}
use microservices_base.Prelude.{
  ℕ, zero, suc, ◌<◌, ◌≡◌, ◌≢◌, refl, sym, true, none, some, String, List, [], ◌∷◌, ◌↔◌, ◌||◌, ◌⊎◌,
  inl, inr, arith, ◌∙◌, Bool-cases, Option-cases,
}
use microservices_base.Prelude.Eq.{◌==◌, member, comparable_string, eq_of_==, ne_of_==}
use microservices_base.Prelude.Assoc.{lookup, unseen, unseen-cons}
use microservices_base.Iam.Hierarchy.{Role, Roles, collect_permissions, grant_all}
use microservices_base.Iam.Hierarchy.Graph.{HasParent, Reach, here, up, Reach-cases, parent_unique}
use microservices_base.Iam.Hierarchy.Ancestors.{or_left, or_right, or-cases}
use microservices_base.Iam.Hierarchy.Cycle.{IsTrail, IsTrail-cons, trail_keeps}

-- A role reached along parents, itself included, is stored and lists the permission.
pub record Holds (roles : Roles) (id permission : String) : Type 0 where
  pub owner : String
  pub reached : Reach roles id owner
  pub role : Role
  pub stored : lookup owner roles ≡ some role
  pub listed : member permission role.permissions ≡ true

member-grant_all :
    (x : String) (ps granted : List String)
    → member x (grant_all ps granted) ≡ (member x granted || member x ps)
unfolding grant_all
member-grant_all x [] granted = ground arith
member-grant_all x (p ∷ ps) granted =
    ground (arith, eq_iff p x, member-grant_all x ps granted, member-grant_all x ps (p ∷ granted))

-- The permissions of the visited roles are granted.
pub record AllGranted (roles : Roles) (visited granted : List String) : Type 0 where
  pub listed :
      (a x : String) (role : Role)
      → member a visited ≡ true
      → lookup a roles ≡ some role
      → member x role.permissions ≡ true
      → member x granted ≡ true

AllGranted-cons :
    (roles : Roles) (visited granted : List String) (c : String) (role : Role)
    → AllGranted roles visited granted
    → lookup c roles ≡ some role
    → AllGranted roles (c ∷ visited) (grant_all role.permissions granted)
AllGranted-cons roles visited granted c role t stored = record {
  listed = λ a x other m s l.
      member-grant_all x role.permissions granted ∙ (elim (Bool-cases (c == a)) [
        | inl same ↦
            or_right (member x granted) (member x role.permissions)
              (same_role a x other (eq_of_== c a same) s l)
        | inr apart ↦
            or_left (member x granted) (member x role.permissions)
              (t.listed a x other (rw apart at m) s l)
      ]);
}
  where
    same_role :
        (a x : String) (other : Role)
        → c ≡ a
        → lookup a roles ≡ some other
        → member x other.permissions ≡ true
        → member x role.permissions ≡ true
    same_role a x other e s l = cc (e, s, l, stored)

abbrev pub GrantedOrHeld : Roles → List String → String → String → Type 0
GrantedOrHeld roles granted current x = (member x granted ≡ true) ⊎ Holds roles current x

-- One step of the collection at a role: what is granted before it or held at it.
module _ (roles : Roles) (granted : List String) (current : String) where
  at_nothing :
      {x : String}
      → lookup current roles ≡ none
      → GrantedOrHeld roles granted current x
      → member x granted ≡ true
  at_nothing absent (inl m) = m
  at_nothing absent (inr h) = elim (Reach-cases h.reached) [
    | inl at_owner ↦ cc (absent, at_owner, h.stored)
    | inr (p, k, r) ↦ cc (absent, k.stored)
  ]

  own :
      {x : String} (role : Role)
      → lookup current roles ≡ some role
      → member x role.permissions ≡ true
      → Holds roles current x
  own role stored m = record {
    owner = current;
    reached = here;
    role = role;
    stored = stored;
    listed = m;
  }

  earlier :
      {x : String} (role : Role)
      → lookup current roles ≡ some role
      → member x (grant_all role.permissions granted) ≡ true
      → GrantedOrHeld roles granted current x
  earlier {x} role stored m =
      elim (or-cases (member x granted) (member x role.permissions)
        (sym (member-grant_all x role.permissions granted) ∙ m)) [
          | inl old ↦ inl old
          | inr mine ↦ inr (own role stored mine)
        ]

  -- What is held at the current role itself is granted there.
  mine_or_above :
      {x : String} (role : Role)
      → lookup current roles ≡ some role
      → Holds roles current x
      → (member x role.permissions ≡ true)
        ⊎ ((p : String) × HasParent roles current p × Holds roles p x)
  mine_or_above {x} role stored h = elim (Reach-cases h.reached) [
    | inl at_owner ↦ inl (same h.role (rw (← at_owner) at h.stored) h.listed)
    | inr (p, k, r) ↦ inr (
      p,
      k,
      record { owner = h.owner; reached = r; role = h.role; stored = h.stored; listed = h.listed },
    )
  ]
    where
      same :
          (other : Role)
          → lookup current roles ≡ some other
          → member x other.permissions ≡ true
          → member x role.permissions ≡ true
      same other s l = cc (s, l, stored)

  grant :
      (x : String) (role : Role)
      → (member x granted ≡ true) ⊎ (member x role.permissions ≡ true)
      → member x (grant_all role.permissions granted) ≡ true
  grant x role (inl m) =
      member-grant_all x role.permissions granted
      ∙ or_left (member x granted) (member x role.permissions) m
  grant x role (inr m) =
      member-grant_all x role.permissions granted
      ∙ or_right (member x granted) (member x role.permissions) m

  later :
      {x : String} (role : Role)
      → lookup current roles ≡ some role
      → role.parent_id ≡ ""
      → GrantedOrHeld roles granted current x
      → member x (grant_all role.permissions granted) ≡ true
  later {x} role stored root (inl m) = grant x role (inl m)
  later {x} role stored root (inr h) = elim (mine_or_above role stored h) [
    | inl mine ↦ grant x role (inr mine)
    | inr (p, k, r) ↦ absurd (no_parent k.role k.stored k.named k.present)
  ]
    where
      no_parent :
          {p : String} (other : Role)
          → lookup current roles ≡ some other
          → other.parent_id ≡ p
          → p ≢ ""
          → ⊥
      no_parent other s n present = present (cc (s, n, stored, root))

  before :
      {x : String} (role : Role)
      → lookup current roles ≡ some role
      → HasParent roles current role.parent_id
      → GrantedOrHeld roles (grant_all role.permissions granted) role.parent_id x
      → GrantedOrHeld roles granted current x
  before role stored has (inl m) = earlier role stored m
  before role stored has (inr h) = inr (record {
    owner = h.owner;
    reached = up has h.reached;
    role = h.role;
    stored = h.stored;
    listed = h.listed;
  })

  after :
      {x : String} (role : Role)
      → lookup current roles ≡ some role
      → HasParent roles current role.parent_id
      → GrantedOrHeld roles granted current x
      → GrantedOrHeld roles (grant_all role.permissions granted) role.parent_id x
  after {x} role stored has (inl m) = inl (grant x role (inl m))
  after {x} role stored has (inr h) = elim (mine_or_above role stored h) [
    | inl mine ↦ inl (grant x role (inr mine))
    | inr (p, k, r) ↦ inr (rw (parent_unique has k) r)
  ]

already :
    (roles : Roles) (visited granted : List String) (current : String)
    → IsTrail roles visited current
    → AllGranted roles visited granted
    → member current visited ≡ true
    → {x : String} → GrantedOrHeld roles granted current x
    → member x granted ≡ true
already roles visited granted current t f back (inl m) = m
already roles visited granted current t f back {x} (inr h) =
    f.listed h.owner x h.role (trail_keeps visited current t back back h.reached) h.stored h.listed

module _ (roles : Roles) where
  pub collect_permissions_lem :
      (fuel : ℕ) (visited granted : List String) (current : String)
      → unseen visited roles < fuel
      → IsTrail roles visited current
      → AllGranted roles visited granted
      → (r : List String) × (collect_permissions fuel roles visited granted current ≡ some r)
        × ((x : String) → (member x r ≡ true) ↔ GrantedOrHeld roles granted current x)
  unfolding collect_permissions
  collect_permissions_lem zero visited granted current less t f = absurd (omega arith)
  collect_permissions_lem (suc fuel) visited granted current less t f =
      elim (Bool-cases (member current visited)) [
        | inl back ↦ (
          granted,
          rw back,
          (λ x. ((λ m. inl m), already roles visited granted current t f back)),
        )
        | inr new ↦ elim (Option-cases (lookup current roles)) [
          | inl absent ↦ (
            granted,
            rw (new, absent),
            (λ x. ((λ m. inl m), at_nothing roles granted current absent)),
          )
          | inr (role, stored) ↦ elim (Bool-cases (role.parent_id == "")) [
            | inl root ↦ (
              grant_all role.permissions granted,
              rw (new, stored, root),
              (λ x. (
                earlier roles granted current role stored,
                later roles granted current role stored (eq_of_== role.parent_id "" root),
              )),
            )
            | inr child ↦
                let has : HasParent roles current role.parent_id = record {
                  role = role;
                  stored = stored;
                  named = refl;
                  present = ne_of_== role.parent_id "" child;
                } in
                let fewer = unseen-cons current visited roles new stored in
                let (r, ends, iff) =
                  collect_permissions_lem fuel (current ∷ visited)
                    (grant_all role.permissions granted) role.parent_id (omega arith)
                    (IsTrail-cons roles visited current role.parent_id t has)
                    (AllGranted-cons roles visited granted current role f stored) in
                (
                  r,
                  rw (new, stored, child) ends,
                  (λ x. (
                    (λ m. before roles granted current role stored has ((iff x).0 m)),
                    (λ w. (iff x).1 (after roles granted current role stored has w)),
                  )),
                )
          ]
        ]
      ]
