-- ===== src/Utils/Diff/Table.antt =====
-- What the table of longestCommonSubsequence holds: for two prefixes, reversed, the length of
-- their longest common subsequence.
use Prim.Native.Nat.{max}
use mathlib.Core.List.{reverse_aux}
use native.Mathlib.Numerals.{add-one}
use microservices_base.Prelude.{
  ℕ, suc, ◌+◌, ◌≤◌, ◌≡◌, refl, subst, ◌∙◌, List, [], ◌∷◌, length, get_or, replicate, if◌then◌else◌,
  arith, ap,
}
use microservices_base.Prelude.Eq.{Comparable, ◌==◌, ==_refl}
use microservices_base.Utils.Diff.{fill_row, fill_table, cell}
use microservices_base.Utils.Diff.Subsequence.{Subsequence, done, skip, keep}

-- A function of the reversed prefixes of `bs`, which come after `ys`.
abbrev pub prefixes {ℓ κ} : {A : Type ℓ} {B : Type κ} → (List A → B) → List A → List A → List B
prefixes f ys [] = f ys ∷ []
prefixes f ys (b ∷ bs) = f ys ∷ prefixes f (b ∷ ys) bs

module _ {ℓ κ} {A : Type ℓ} {B : Type κ} (f : List A → B) (d : B) where
  prefixes-first : (ys bs : List A) → get_or (prefixes f ys bs) 0 d ≡ f ys
  prefixes-first ys [] = refl
  prefixes-first ys (b ∷ bs) = refl

  prefixes-from :
      (ys rest : List A) (k : ℕ)
      → get_or (prefixes f [] (reverse_aux ys rest)) (length ys + k) d
        ≡ get_or (prefixes f ys rest) k d
  prefixes-from [] rest k = ap (λ n. get_or (prefixes f [] rest) n d) (omega arith)
  prefixes-from (y ∷ ys) rest k =
      subst
        (λ n.
          get_or (prefixes f [] (reverse_aux ys (y ∷ rest))) n d
          ≡ get_or (prefixes f (y ∷ ys) rest) k d)
        (omega arith) (prefixes-from ys (y ∷ rest) (suc k))

  -- The value for the prefix `ys` stands at its length.
  pub prefixes-at :
      (ys rest : List A) → get_or (prefixes f [] (reverse_aux ys rest)) (length ys) d ≡ f ys
  prefixes-at ys rest =
      subst (λ n. get_or (prefixes f [] (reverse_aux ys rest)) n d ≡ f ys) (omega arith)
        (prefixes-from ys rest 0 ∙ prefixes-first ys rest)

module _ {ℓ} {A : Type ℓ} ⦃e : Comparable A⦄ where
  -- The recurrence of the table.
  unfoldable pub best : List A → List A → ℕ
  best (x ∷ a) (y ∷ b) = if x == y then best a b + 1 else max (best a (y ∷ b)) (best (x ∷ a) b)
  best _ _ = 0

  best-nil : (a : List A) → best a [] ≡ 0
  unfolding best
  best-nil [] = refl
  best-nil (x ∷ a) = refl

  fill_row-best :
      (x : A) (a ys bs : List A)
      → best (x ∷ a) ys ∷ fill_row x bs (prefixes (best a) ys bs) (best (x ∷ a) ys)
        ≡ prefixes (best (x ∷ a)) ys bs
  unfolding fill_row best
  fill_row-best x a ys [] = refl
  fill_row-best x a ys (b ∷ []) = refl
  fill_row-best x a ys (b ∷ c ∷ bs) =
      ap (◌∷◌ (best (x ∷ a) ys)) (fill_row-best x a (b ∷ ys) (c ∷ bs))

  fill_table-best :
      (a xs b : List A)
      → fill_table a b (prefixes (best xs) [] b) ≡ prefixes (λ us. prefixes (best us) [] b) xs a
  unfolding fill_table best
  fill_table-best [] xs b = refl
  fill_table-best (x ∷ a) xs b =
      ap (◌∷◌ (prefixes (best xs) [] b))
        (ap (fill_table a b) (fill_row-best x xs [] b) ∙ fill_table-best a (x ∷ xs) b)

  zero_row : (ys b : List A) → replicate (suc (length b)) 0 ≡ prefixes (best []) ys b
  unfolding best
  zero_row ys [] = refl
  zero_row ys (x ∷ b) = ap (◌∷◌ 0) (zero_row (x ∷ ys) b)

  abbrev pub table : List A → List A → List (List ℕ)
  table a b = fill_table a b (replicate (length b + 1) 0)

  -- `dp[i][j]` is the recurrence at the prefixes of these lengths.
  pub cell-best :
      (xs ys us vs : List A)
      → cell (table (reverse_aux xs us) (reverse_aux ys vs)) (length xs) (length ys) ≡ best xs ys
  cell-best xs ys us vs =
      rw
        (
          add-one,
          zero_row [] (reverse_aux ys vs),
          fill_table-best (reverse_aux xs us) [] (reverse_aux ys vs),
          prefixes-at (λ us. prefixes (best us) [] (reverse_aux ys vs)) [] xs us,
        )
        (prefixes-at (best xs) 0 ys vs)

  -- One more element adds at most one.
  pub record Steps (a b : List A) : Type ℓ where
    pub left_le : (x : A) → best a b ≤ best (x ∷ a) b
    pub right_le : (y : A) → best a b ≤ best a (y ∷ b)
    pub left_step : (x : A) → best (x ∷ a) b ≤ best a b + 1
    pub right_step : (y : A) → best a (y ∷ b) ≤ best a b + 1

  pub best-Steps : (a b : List A) → Steps a b
  unfolding best
  best-Steps [] [] = record {
    left_le = λ x. omega arith;
    right_le = λ x. omega arith;
    left_step = λ x. omega arith;
    right_step = λ x. omega arith;
  }
  best-Steps [] (w ∷ b) =
      let r = best-Steps [] b in
      record {
        left_le = λ x. omega arith;
        right_le = λ y. omega arith;
        left_step = λ x. ground (arith, r.right_le w, r.left_step x);
        right_step = λ y. omega arith;
      }
  best-Steps (v ∷ a) [] =
      let l = best-Steps a [] in
      record {
        left_le = λ x. omega arith;
        right_le = λ y. omega arith;
        left_step = λ x. omega arith;
        right_step = λ y. ground (arith, l.left_le v, l.right_step y);
      }
  best-Steps (v ∷ a) (w ∷ b) =
      let r = best-Steps (v ∷ a) b in
      let l = best-Steps a (w ∷ b) in
      record {
        left_le = λ x. ground (arith, r.right_step w);
        right_le = λ y. ground (arith, l.left_step v);
        left_step = λ x. ground (arith, r.right_le w, r.left_step x, r.right_step w);
        right_step = λ y. ground (arith, l.left_le v, l.right_step y, l.left_step v);
      }

  -- No common subsequence is longer.
  pub best_most : {s a b : List A} → Subsequence s a → Subsequence s b → length s ≤ best a b
  unfolding best
  best_most done q = omega arith
  best_most (skip {x} {l = a} p) q = omega (arith, best_most p q, (best-Steps a _).left_le x)
  best_most (keep {x} {l = a} p) (skip {x = y} {l = b} q) =
      omega (arith, best_most (keep p) q, (best-Steps (x ∷ a) b).right_le y)
  best_most (keep {x} p) (keep q) = rw (==_refl x) (omega (arith, best_most p q))
