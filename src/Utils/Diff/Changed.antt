-- ===== src/Utils/Diff/Changed.antt =====
-- What the summaries of the changes say.
use microservices_base.Prelude.{
  ℕ, suc, ◌+◌, ◌≡◌, refl, sym, subst, ◌∙◌, false, List, [], ◌∷◌, ap, inl, inr, Bool-cases, length,
  arith, ◌↔◌, if◌then◌else◌,
}
use microservices_base.Prelude.Eq.{Comparable, ◌==◌}
use microservices_base.Prelude.Assoc.{lookup, insert, lookup-insert}
use microservices_base.Utils.Diff.{
  diff_loop, diff, filter_changes, op_equal, op_insert, op_delete, op_replace, Operation, Change,
  has_changes, count_changes, count_loop, count_of, comparable_operation, kept, inserted, deleted,
  patch, same_operation_iff, longest_common_subsequence,
}
use microservices_base.Utils.Diff.Subsequence.{Subsequence-refl}
use microservices_base.Utils.Diff.Patches.{patch-diff}
use microservices_base.Utils.Diff.Fewest.{count, filter_changes-diff_most}

module _ {ℓ} {A : Type ℓ} where
  count_loop-count :
      (op : Operation) (changes : List (Change A)) (counts : List (Operation × ℕ))
      → count_of op (count_loop changes counts) ≡ count_of op counts + count changes op
  unfolding filter_changes
  count_loop-count op [] counts = omega arith
  count_loop-count op (c ∷ changes) counts =
      let next = insert c.op (count_of c.op counts + 1) counts in
      ground (
        arith,
        count_loop-count op changes next,
        lookup-insert c.op op (count_of c.op counts + 1) counts,
        same_operation_iff c.op op,
      )

  -- CountChanges has for each operation the number of changes that FilterChanges keeps.
  pub count_changes-filter_changes :
      (changes : List (Change A)) (op : Operation)
      → count_of op (count_changes changes) ≡ length (filter_changes changes op)
  unfolding count_changes lookup
  count_changes-filter_changes changes op = omega (arith, count_loop-count op changes [], unlisted)
    where
      unlisted : count_of op [] ≡ 0
      unlisted = refl

  has_changes-cons :
      (c : Change A) (changes : List (Change A))
      → has_changes (c ∷ changes) ≡ false
      → (c.op ≡ op_equal) × (has_changes changes ≡ false)
  unfolding has_changes
  has_changes-cons c changes h = ground (arith, same_operation_iff c.op op_equal)

  patch_unchanged :
      (old : List A) (changes : List (Change A))
      → has_changes changes ≡ false
      → patch old changes ≡ old
  unfolding patch
  patch_unchanged old [] h = refl
  patch_unchanged [] (c ∷ changes) h =
      let (op, rest) = has_changes-cons c changes h in
      rw (patch, op) (patch_unchanged [] changes rest)
  patch_unchanged (x ∷ old) (c ∷ changes) h =
      let (op, rest) = has_changes-cons c changes h in
      rw (patch, op) (ap (◌∷◌ x) (patch_unchanged old changes rest))

  -- Every element of the old slice is kept or deleted.
  pub record Complete (changes : List (Change A)) (old new : List A) : Type 0 where
    pub of_old : count changes op_equal + count changes op_delete ≡ length old
    pub of_new : count changes op_equal + count changes op_insert ≡ length new
    pub no_replace : count changes op_replace ≡ 0

  module _ {changes : List (Change A)} {old new : List A} (c : Complete changes old new) where
    Complete-kept : (i : ℕ) (x y : A) → Complete (kept i x y ∷ changes) (x ∷ old) (y ∷ new)
    unfolding filter_changes
    Complete-kept i x y = record {
      of_old = omega (arith, c.of_old);
      of_new = omega (arith, c.of_new);
      no_replace = c.no_replace;
    }

    Complete-deleted :
        (zero_value : A) (i : ℕ) (x : A) → Complete (deleted zero_value i x ∷ changes) (x ∷ old) new
    unfolding filter_changes
    Complete-deleted zero_value i x = record {
      of_old = omega (arith, c.of_old);
      of_new = c.of_new;
      no_replace = c.no_replace;
    }

    Complete-inserted :
        (zero_value : A) (i : ℕ) (y : A)
        → Complete (inserted zero_value i y ∷ changes) old (y ∷ new)
    unfolding filter_changes
    Complete-inserted zero_value i y = record {
      of_old = c.of_old;
      of_new = omega (arith, c.of_new);
      no_replace = c.no_replace;
    }

  count-cons :
      (c : Change A) (changes : List (Change A)) (op : Operation)
      → count (c ∷ changes) op ≡ (if c.op == op then suc (count changes op) else count changes op)
  unfolding filter_changes
  count-cons c changes op = ground arith

  unchanged_of_count :
      (changes : List (Change A))
      → count changes op_delete ≡ 0
      → count changes op_insert ≡ 0
      → count changes op_replace ≡ 0
      → has_changes changes ≡ false
  unfolding has_changes
  unchanged_of_count [] d i r = refl
  unchanged_of_count (c ∷ changes) d i r = grind (
    arith,
    count-cons c changes op_delete,
    count-cons c changes op_insert,
    count-cons c changes op_replace,
    unchanged_of_count changes,
  )

module _ {ℓ} {A : Type ℓ} ⦃e : Comparable A⦄ (zero_value : A) where
  diff_loop-Complete :
      (old new lcs : List A) (i j : ℕ) → Complete (diff_loop zero_value old new lcs i j) old new
  unfolding diff_loop filter_changes
  diff_loop-Complete (x ∷ old) (y ∷ new) (c ∷ lcs) i j = elim (Bool-cases (x == c)) [
    | inl ours ↦ elim (Bool-cases (y == c)) [
      | inl both ↦
          rw (diff_loop, ours, both)
            (Complete-kept (diff_loop-Complete old new lcs (suc i) (suc j)) j x y)
      | inr theirs ↦
          rw (diff_loop, ours, theirs, ours)
            (Complete-inserted (diff_loop-Complete (x ∷ old) new (c ∷ lcs) i (suc j)) zero_value j
              y)
    ]
    | inr gone ↦
        rw (diff_loop, gone, gone)
          (Complete-deleted (diff_loop-Complete old (y ∷ new) (c ∷ lcs) (suc i) j) zero_value i x)
  ]
  diff_loop-Complete (x ∷ old) (y ∷ new) [] i j =
      Complete-deleted (diff_loop-Complete old (y ∷ new) [] (suc i) j) zero_value i x
  diff_loop-Complete (x ∷ old) [] lcs i j =
      Complete-deleted (diff_loop-Complete old [] lcs (suc i) j) zero_value i x
  diff_loop-Complete [] (y ∷ new) lcs i j =
      Complete-inserted (diff_loop-Complete [] new lcs i (suc j)) zero_value j y
  diff_loop-Complete [] [] lcs i j = record { of_old = refl; of_new = refl; no_replace = refl }

  diff-Complete : (old new : List A) → Complete (diff zero_value old new) old new
  unfolding diff
  diff-Complete old new = diff_loop-Complete old new (longest_common_subsequence old new) 0 0

  diff_same : (l : List A) → has_changes (diff zero_value l l) ≡ false
  diff_same l =
      let c = diff-Complete l l in
      let most =
        filter_changes-diff_most zero_value l l l (Subsequence-refl l) (Subsequence-refl l) in
      unchanged_of_count (diff zero_value l l) (omega (arith, c.of_old, most))
        (omega (arith, c.of_new, most)) c.no_replace

  -- Diff finds no change exactly when the slices are equal.
  pub has_changes-diff_iff :
      (old new : List A) → (has_changes (diff zero_value old new) ≡ false) ↔ (old ≡ new)
  has_changes-diff_iff old new = (
    λ unchanged.
        sym (patch_unchanged old (diff zero_value old new) unchanged)
        ∙ patch-diff zero_value old new,
    λ equal. subst (λ l. has_changes (diff zero_value old l) ≡ false) equal (diff_same old),
  )
