-- ===== src/Iam/Hierarchy/Cycle.antt =====
-- The loop of `wouldCreateCycle`.
use microservices_base.Prelude.{
  ℕ, zero, suc, ◌<◌, ◌≡◌, refl, sym, Bool, true, false, Option, some, String, List, [], ◌∷◌, ◌⊎◌,
  ◌↔◌, ◌||◌, inl, inr, arith, ap, ◌∙◌, Bool-cases, if◌then◌else◌, length,
}
use microservices_base.Prelude.Eq.{◌==◌, member, comparable_string, eq_of_==, ne_of_==, ==_refl}
use microservices_base.Prelude.Assoc.{unseen, unseen-nil, unseen-cons}
use microservices_base.Iam.Hierarchy.{Roles, cycle_loop, or_false, would_create_cycle}
use microservices_base.Iam.Hierarchy.Graph.{
  HasParent, Reach, here, up, parent_unique, parent-cases, Reach-cases,
}

-- The parents of the visited roles are visited, or are where the loop stands.
pub record IsTrail (roles : Roles) (visited : List String) (current : String) : Type 0 where
  pub closed :
      (a p : String)
      → member a visited ≡ true
      → HasParent roles a p
      → (member p visited ≡ true) ⊎ (p ≡ current)

pub IsTrail-nil : (roles : Roles) (c : String) → IsTrail roles [] c
IsTrail-nil roles c = record { closed = λ a p m h. cc }

pub IsTrail-cons :
    (roles : Roles) (visited : List String) (c p : String)
    → IsTrail roles visited c
    → HasParent roles c p
    → IsTrail roles (c ∷ visited) p
IsTrail-cons roles visited c p t h = record {
  closed = λ a q m k. elim (Bool-cases (c == a)) [
    | inl same ↦ inr (parent_unique k (rw (← eq_of_== c a same) h))
    | inr other ↦ elim (t.closed a q (rw other at m) k) [
      | inl seen ↦ inl (rw seen (or_true (c == q)))
      | inr at_c ↦ inl (rw (at_c, ==_refl c))
    ]
  ];
}
  where
    or_true : (b : Bool) → (b || true) ≡ true
    or_true true = refl
    or_true false = refl

-- What is reached from a visited role is visited, once the loop is back at one.
pub trail_keeps :
    {roles : Roles} {a c : String} (visited : List String) (current : String)
    → IsTrail roles visited current
    → member current visited ≡ true
    → member a visited ≡ true
    → Reach roles a c
    → member c visited ≡ true
trail_keeps visited current t back m here = m
trail_keeps {a} visited current t back m (up {b} h r) = elim (t.closed a b m h) [
  | inl seen ↦ trail_keeps visited current t back seen r
  | inr at_current ↦ trail_keeps visited current t back (rw at_current back) r
]

module _ (roles : Roles) (target : String) where
  cycle_loop-true :
      (fuel : ℕ) (visited : List String) (current : String)
      → unseen visited roles < fuel
      → IsTrail roles visited current
      → member target visited ≡ false
      → Reach roles current target
      → cycle_loop fuel roles target visited current ≡ some true
  unfolding cycle_loop
  cycle_loop-true zero visited current f t away r = absurd (omega arith)
  cycle_loop-true (suc fuel) visited current f t away r = elim (Bool-cases (current == target)) [
    | inl found ↦ rw found
    | inr apart ↦ elim (Bool-cases (member current visited)) [
      | inl back ↦ cc (away, trail_keeps visited current t back back r)
      | inr new ↦ elim (Reach-cases r) [
        | inl at_target ↦ absurd (ne_of_== current target apart at_target)
        | inr (p, h, rest) ↦ elim (parent-cases roles current) [
          | inr (top, stops) ↦ absurd (top p h)
          | inl (role, stored, has, goes) ↦
              let fewer = unseen-cons current visited roles new stored in
              let same : p ≡ role.parent_id = parent_unique h has in
              rw (apart, new)
                (goes _ _ _
                  ∙ cycle_loop-true fuel (current ∷ visited) role.parent_id (omega arith)
                      (IsTrail-cons roles visited current role.parent_id t has) (rw (apart, away))
                      (rw (← same) rest))
        ]
      ]
    ]
  ]

  cycle_loop_sound :
      (fuel : ℕ) (visited : List String) (current : String)
      → cycle_loop fuel roles target visited current ≡ some true
      → Reach roles current target
  unfolding cycle_loop
  cycle_loop_sound zero visited current h = cc
  cycle_loop_sound (suc fuel) visited current h = elim (Bool-cases (current == target)) [
    | inl found ↦ rw (eq_of_== current target found) here
    | inr apart ↦ elim (Bool-cases (member current visited)) [
      | inl back ↦ cc (rw (apart, back) at h)
      | inr new ↦ elim (parent-cases roles current) [
        | inr (top, stops) ↦ cc (
          stops (Option Bool) (some false)
              (λ role. cycle_loop fuel roles target (current ∷ visited) role.parent_id),
          rw (apart, new) at h,
        )
        | inl (role, stored, has, goes) ↦ up has (
            cycle_loop_sound fuel (current ∷ visited) role.parent_id (
              sym (
                goes (Option Bool) (some false)
                  (λ role. cycle_loop fuel roles target (current ∷ visited) role.parent_id))
              ∙ (rw (apart, new) at h)))
      ]
    ]
  ]

  cycle_loop_total :
      (fuel : ℕ) (visited : List String) (current : String)
      → unseen visited roles < fuel
      → (b : Bool) × (cycle_loop fuel roles target visited current ≡ some b)
  unfolding cycle_loop
  cycle_loop_total zero visited current f = absurd (omega arith)
  cycle_loop_total (suc fuel) visited current f = elim (Bool-cases (current == target)) [
    | inl found ↦ (true, rw found)
    | inr apart ↦ elim (Bool-cases (member current visited)) [
      | inl back ↦ (false, rw (apart, back))
      | inr new ↦ elim (parent-cases roles current) [
        | inr (top, stops) ↦ (false, rw (apart, new) (stops _ _ _))
        | inl (role, stored, has, goes) ↦
            let fewer = unseen-cons current visited roles new stored in
            let (b, ends) =
              cycle_loop_total fuel (current ∷ visited) role.parent_id (omega arith) in
            (b, rw (apart, new) (goes _ _ _ ∙ ends))
      ]
    ]
  ]

-- With as much fuel as there are roles, and one more, the loop of `wouldCreateCycle` ends; and the
-- method answers true exactly when the role is reached from the intended parent along parents.
pub would_create_cycle_iff :
    (roles : Roles) (id parent : String)
    → ((b : Bool) × (cycle_loop (suc (length roles)) roles id [] parent ≡ some b))
      × ((would_create_cycle roles id parent ≡ true) ↔ Reach roles parent id)
unfolding would_create_cycle
would_create_cycle_iff roles id parent =
    let enough : unseen [] roles < suc (length roles) = omega (arith, unseen-nil roles) in
    let (b, ends) = cycle_loop_total roles id (suc (length roles)) [] parent enough in
    ((b, ends), (sound (b, ends), complete enough))
  where
    sound :
        (b : Bool) × (cycle_loop (suc (length roles)) roles id [] parent ≡ some b)
        → (if id == parent
            then true
            else or_false (cycle_loop (suc (length roles)) roles id [] parent))
          ≡ true
        → Reach roles parent id
    sound (b, ends) h = elim (Bool-cases (id == parent)) [
      | inl same ↦ rw (eq_of_== id parent same) here
      | inr apart ↦
          cycle_loop_sound roles id (suc (length roles)) [] parent
            (ends ∙ ap some (sym (rw (apart, ends) refl) ∙ h))
    ]

    complete :
        unseen [] roles < suc (length roles)
        → Reach roles parent id
        → (if id == parent
            then true
            else or_false (cycle_loop (suc (length roles)) roles id [] parent))
          ≡ true
    complete enough r = elim (Bool-cases (id == parent)) [
      | inl same ↦ rw same
      | inr apart ↦ rw (
        apart,
        cycle_loop-true roles id (suc (length roles)) [] parent enough (IsTrail-nil roles parent)
            refl r,
      )
    ]
