-- ===== src/Prelude/Keys.antt =====
-- Maps that list no key twice.
use microservices_base.Prelude.{
  ◌≡◌, ◌≢◌, refl, sym, subst, none, List, [], ◌∷◌, inl, inr, Bool-cases,
}
use microservices_base.Prelude.Eq.{Comparable, ◌==◌, eq_of_==, ne_of_==, ==_of_ne}
use microservices_base.Prelude.Assoc.{lookup, insert, remove}

module _ {ℓ κ} {K : Type ℓ} {V : Type κ} ⦃e : Comparable K⦄ where
  -- No entry has the key.
  pub data Absent (k : K) : List (K × V) → Type (ℓ ⊔ κ) where
    absent_nil : Absent k []
    absent_cons : {j : K} {v : V} {m : List (K × V)} → j ≢ k → Absent k m → Absent k ((j, v) ∷ m)

  pub data NoRepeat : List (K × V) → Type (ℓ ⊔ κ) where
    none_listed : NoRepeat []
    one_listed :
        {k : K} {v : V} {m : List (K × V)} → Absent k m → NoRepeat m → NoRepeat ((k, v) ∷ m)

  pub lookup-Absent : {k : K} {m : List (K × V)} → Absent k m → lookup k m ≡ none
  unfolding lookup
  lookup-Absent absent_nil = refl
  lookup-Absent {k} (absent_cons {j} n a) = rw (==_of_ne j k n) (lookup-Absent a)

  Absent-insert :
      {k : K} (i : K) (v : V) {m : List (K × V)} → i ≢ k → Absent k m → Absent k (insert i v m)
  unfolding insert
  Absent-insert i v n absent_nil = absent_cons n absent_nil
  Absent-insert i v n (absent_cons {j} p a) = elim (Bool-cases (j == i)) [
    | inl same ↦ rw (insert, same) (absent_cons n a)
    | inr other ↦ rw (insert, other) (absent_cons p (Absent-insert i v n a))
  ]

  pub NoRepeat-insert : (i : K) (v : V) {m : List (K × V)} → NoRepeat m → NoRepeat (insert i v m)
  unfolding insert
  NoRepeat-insert i v none_listed = one_listed absent_nil none_listed
  NoRepeat-insert i v (one_listed {k} {m} a r) = elim (Bool-cases (k == i)) [
    | inl same ↦ rw (insert, same) (one_listed (subst (λ j. Absent j m) (eq_of_== k i same) a) r)
    | inr other ↦
        rw (insert, other)
          (one_listed (Absent-insert i v (λ p. ne_of_== k i other (sym p)) a)
            (NoRepeat-insert i v r))
  ]

  Absent-remove : {k : K} (i : K) {m : List (K × V)} → Absent k m → Absent k (remove i m)
  unfolding remove
  Absent-remove i absent_nil = absent_nil
  Absent-remove i (absent_cons {j} p a) = elim (Bool-cases (j == i)) [
    | inl same ↦ rw (remove, same) (Absent-remove i a)
    | inr other ↦ rw (remove, other) (absent_cons p (Absent-remove i a))
  ]

  pub NoRepeat-remove : (i : K) {m : List (K × V)} → NoRepeat m → NoRepeat (remove i m)
  unfolding remove
  NoRepeat-remove i none_listed = none_listed
  NoRepeat-remove i (one_listed {k} a r) = elim (Bool-cases (k == i)) [
    | inl same ↦ rw (remove, same) (NoRepeat-remove i r)
    | inr other ↦ rw (remove, other) (one_listed (Absent-remove i a) (NoRepeat-remove i r))
  ]
