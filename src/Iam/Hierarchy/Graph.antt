-- ===== src/Iam/Hierarchy/Graph.antt =====
-- The graph of parents that a set of roles is.
use microservices_base.Prelude.{
  String, ◌≡◌, ◌≢◌, refl, some, ◌⊎◌, inl, inr, Option-cases, Bool-cases,
}
use microservices_base.Prelude.Eq.{◌==◌, comparable_string, ne_of_==, eq_of_==}
use microservices_base.Prelude.Assoc.{lookup}
use microservices_base.Iam.Hierarchy.{Role, Roles, at_parent}

-- The role is stored, and names a parent.
pub record HasParent (roles : Roles) (child parent : String) : Type 0 where
  pub role : Role
  pub stored : lookup child roles ≡ some role
  pub named : role.parent_id ≡ parent
  pub present : parent ≢ ""

-- The walks from a role along its parents.
pub data Reach (roles : Roles) : String → String → Type 0 where
  here : {a : String} → Reach roles a a
  up : {a b c : String} → HasParent roles a b → Reach roles b c → Reach roles a c

-- A role above another.
pub data Above (roles : Roles) (a c : String) : Type 0 where
  above : {b : String} → HasParent roles a b → Reach roles b c → Above roles a c

-- No role is above itself.
abbrev pub Acyclic : Roles → Type 0
Acyclic roles = (a : String) → ¬ Above roles a a

pub parent_unique :
    {roles : Roles} {a b c : String} → HasParent roles a b → HasParent roles a c → b ≡ c
parent_unique p q = cc (p.stored, q.stored, p.named, q.named)

pub Reach-trans :
    {roles : Roles} {a b c : String} → Reach roles a b → Reach roles b c → Reach roles a c
Reach-trans here r = r
Reach-trans (up p q) r = up p (Reach-trans q r)

-- A loop goes on exactly from a role that has a parent, and there with the stored role.
abbrev pub GoesOn : Roles → String → Type 1
GoesOn roles c =
    (role : Role) × (lookup c roles ≡ some role)
    × HasParent roles c role.parent_id
    × ((A : Type 0) (stop : A) (go : Role → A) → at_parent (lookup c roles) stop go ≡ go role)

abbrev pub Stops : Roles → String → Type 1
Stops roles c =
    ((p : String) → ¬ HasParent roles c p)
    × ((A : Type 0) (stop : A) (go : Role → A) → at_parent (lookup c roles) stop go ≡ stop)

pub parent-cases : (roles : Roles) (c : String) → GoesOn roles c ⊎ Stops roles c
parent-cases roles c = elim (Option-cases (lookup c roles)) [
  | inl absent ↦ inr ((λ p h. cc (absent, h.stored)), (λ A stop go. rw absent))
  | inr (role, stored) ↦ elim (Bool-cases (role.parent_id == "")) [
    | inl root ↦ inr (
      (λ p h.
          h.present
            (parent_of role h.role stored h.stored h.named (eq_of_== role.parent_id "" root))),
      (λ A stop go. rw (stored, root)),
    )
    | inr child ↦ inl (
      role,
      stored,
      record {
        role = role;
        stored = stored;
        named = refl;
        present = ne_of_== role.parent_id "" child;
      },
      (λ A stop go. rw (stored, child)),
    )
  ]
]
  where
    parent_of :
        (role stored_role : Role) {p : String}
        → lookup c roles ≡ some role
        → lookup c roles ≡ some stored_role
        → stored_role.parent_id ≡ p
        → role.parent_id ≡ ""
        → p ≡ ""
    parent_of role stored_role s t e r = cc

pub Reach-cases :
    {roles : Roles} {a c : String}
    → Reach roles a c
    → (a ≡ c) ⊎ ((b : String) × HasParent roles a b × Reach roles b c)
Reach-cases here = inl refl
Reach-cases (up {b} h r) = inr (b, h, r)

pub Reach-of_eq : {roles : Roles} {a b : String} → a ≡ b → Reach roles a b
Reach-of_eq e = rw e here

pub Above-extend :
    {roles : Roles} {a b c : String} → Above roles a b → HasParent roles b c → Above roles a c
Above-extend (above h r) k = above h (Reach-trans r (up k here))

-- A walk to a cycle goes on from the parent.
pub walk_on :
    {roles : Roles} {a b p : String}
    → HasParent roles a p
    → Reach roles a b
    → Above roles b b
    → Reach roles p b
walk_on h here (above k r) = rw (parent_unique h k) r
walk_on h (up k r) cycle = rw (parent_unique h k) r
