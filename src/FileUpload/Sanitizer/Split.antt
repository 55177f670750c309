-- ===== src/FileUpload/Sanitizer/Split.antt =====
-- Splitting a path and joining its parts.
use native.Mathlib.Omega.{arith}
use microservices_base.Prelude.{
  ℕ, ◌≡◌, ◌≢◌, refl, ◌∙◌, ap, true, List, [], ◌∷◌, ◌++◌, inl, inr, Bool-cases,
}
use microservices_base.Prelude.Eq.{◌==◌, comparable_nat, comparable_list, ne_of_==, ==_of_ne}
use microservices_base.Prelude.Order.{All, all_nil, all_cons}
use microservices_base.FileUpload.Sanitizer.{
  codes, slash, split, join, onto_first, kept_parts, is_kept,
}

abbrev pub NoSlash : List ℕ → Type 0
NoSlash = All (λ c. c ≢ slash)

onto_first-NoSlash :
    (c : ℕ) {parts : List (List ℕ)}
    → c ≢ slash
    → All NoSlash parts
    → All NoSlash (onto_first c parts)
onto_first-NoSlash c n all_nil = all_cons (all_cons n all_nil) all_nil
onto_first-NoSlash c n (all_cons p ps) = all_cons (all_cons n p) ps

pub split-NoSlash : (s : List ℕ) → All NoSlash (split s)
unfolding split
split-NoSlash [] = all_cons all_nil all_nil
split-NoSlash (c ∷ s) = elim (Bool-cases (c == slash)) [
  | inl at_slash ↦ rw (split, at_slash) (all_cons all_nil (split-NoSlash s))
  | inr other ↦ rw (split, other) (onto_first-NoSlash c (ne_of_== c slash other) (split-NoSlash s))
]

split_whole : {part : List ℕ} → NoSlash part → split part ≡ part ∷ []
unfolding split
split_whole all_nil = refl
split_whole (all_cons {x} n ns) = rw (==_of_ne x slash n, split_whole ns) refl

split-append :
    {part : List ℕ} (s : List ℕ) → NoSlash part → split (part ++ slash ∷ s) ≡ part ∷ split s
unfolding split
split-append s all_nil = refl
split-append s (all_cons {x} n ns) = rw (==_of_ne x slash n, split-append s ns) refl

-- Splitting what joining gives gives back the parts.
pub split-join :
    {part : List ℕ} {parts : List (List ℕ)}
    → All NoSlash (part ∷ parts)
    → split (join (part ∷ parts)) ≡ part ∷ parts
unfolding join
split-join (all_cons p all_nil) = split_whole p
split-join {part} (all_cons p (all_cons {x} {l} q qs)) =
    split-append (join (x ∷ l)) p ∙ ap (◌∷◌ part) (split-join (all_cons q qs))

-- A name that leads nowhere else.
pub record SafePart (part : List ℕ) : Type 0 where
  pub not_parent : part ≢ codes ".."
  pub not_self : part ≢ codes "."
  pub not_empty : part ≢ []

SafePart-of_kept : (part : List ℕ) → is_kept part ≡ true → SafePart part
SafePart-of_kept part h = record {
  not_parent = ne_of_== part (codes "..") (ground arith);
  not_self = ne_of_== part (codes ".") (ground arith);
  not_empty = ne_of_== part [] (ground arith);
}

pub kept_parts_keep :
    {P : List ℕ → Type 0} (parts : List (List ℕ)) → All P parts → All P (kept_parts parts)
unfolding kept_parts
kept_parts_keep [] all_nil = all_nil
kept_parts_keep (part ∷ parts) (all_cons p ps) = elim (Bool-cases (is_kept part)) [
  | inl good ↦ rw (kept_parts, good) (all_cons p (kept_parts_keep parts ps))
  | inr bad ↦ rw (kept_parts, bad) (kept_parts_keep parts ps)
]

pub kept_parts-SafePart : (parts : List (List ℕ)) → All SafePart (kept_parts parts)
unfolding kept_parts
kept_parts-SafePart [] = all_nil
kept_parts-SafePart (part ∷ parts) = elim (Bool-cases (is_kept part)) [
  | inl good ↦
      rw (kept_parts, good) (all_cons (SafePart-of_kept part good) (kept_parts-SafePart parts))
  | inr bad ↦ rw (kept_parts, bad) (kept_parts-SafePart parts)
]
