-- ===== src/FileUpload/Sanitizer/Collapse.antt =====
-- The loop of SanitizePath that removes double slashes.
use native.Mathlib.Omega.{arith}
use microservices_base.Prelude.{
  ℕ, zero, suc, ◌-◌, ◌≤◌, ◌<◌, ◌≡◌, refl, true, false, List, [], ◌∷◌, length, inl, inr, Bool-cases,
}
use microservices_base.Prelude.Eq.{comparable_nat}
use microservices_base.FileUpload.Sanitizer.{
  slash, has_prefix, contains, replace_from, replace_all, collapse,
}

abbrev double : List ℕ
double = slash ∷ slash ∷ []

abbrev single : List ℕ
single = slash ∷ []

prefix_pair : (c : ℕ) (s : List ℕ) → has_prefix double (c ∷ s) ≡ true → 1 ≤ length s
unfolding has_prefix
prefix_pair c [] h = ground arith
prefix_pair c (d ∷ s) h = omega arith

double_absent : contains double [] ≡ false
unfolding contains has_prefix
double_absent = refl

-- Replacing makes no text longer, and one with an occurrence shorter.
record Shrinks (s : List ℕ) : Type 0 where
  never_longer : length (replace_from 0 double single s) ≤ length s
  after_one : length (replace_from 1 double single s) ≤ length s - 1
  shorter : contains double s ≡ true → length (replace_from 0 double single s) < length s

replace-Shrinks : (s : List ℕ) → Shrinks s
unfolding replace_from contains
replace-Shrinks [] = record {
  never_longer = omega arith;
  after_one = omega arith;
  shorter = λ h. cc double_absent;
}
replace-Shrinks (c ∷ s) =
    let r = replace-Shrinks s in
    elim (Bool-cases (has_prefix double (c ∷ s))) [
      | inl found ↦
          let some = prefix_pair c s found in
          record {
            never_longer = rw (replace_from, found) (omega (arith, r.after_one, some));
            after_one = omega (arith, r.never_longer);
            shorter = λ h. rw (replace_from, found) (omega (arith, r.after_one, some));
          }
      | inr other ↦ record {
        never_longer = rw (replace_from, other) (omega (arith, r.never_longer));
        after_one = omega (arith, r.never_longer);
        shorter =
            λ h. rw (replace_from, other) (omega (arith, r.shorter (rw (contains, other) at h)));
      }
    ]

-- As much fuel as the text has characters is enough: no double slash is left.
pub collapse_ends :
    (fuel : ℕ) (path : List ℕ) → length path ≤ fuel → contains double (collapse fuel path) ≡ false
unfolding collapse replace_all
collapse_ends zero [] h = double_absent
collapse_ends zero (c ∷ path) h = absurd (omega arith)
collapse_ends (suc fuel) path h = elim (Bool-cases (contains double path)) [
  | inl more ↦
      rw (collapse, more)
        (collapse_ends fuel (replace_from 0 double single path)
          (omega (arith, (replace-Shrinks path).shorter more)))
  | inr done ↦ rw (collapse, done) done
]
