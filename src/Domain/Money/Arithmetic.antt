-- ===== src/Domain/Money/Arithmetic.antt =====
-- Adding, subtracting and comparing.
use native.Mathlib.Omega.{arith}
use microservices_base.Prelude.{
  ℕ, ◌≡◌, ◌≢◌, ◌↔◌, refl, ap, ap₂, Bool, true, false, some, String, inl, inr, Bool-cases,
}
use microservices_base.Prelude.Eq.{comparable_string, ◌==◌, ==_refl, ==_of_ne, eq_of_==}
use microservices_base.Prelude.Int.{ℤ, pos, negsuc, ◌+ℤ◌, ◌-ℤ◌, eqb_ℤ}
use microservices_base.Domain.Money.{
  Money, returned, currency_mismatch, with_amounts, add, subtract, equals,
}

sub-add : (a b : ℤ) → (a +ℤ b) -ℤ b ≡ a
sub-add (pos a) (pos b) = ground arith
sub-add (pos a) (negsuc b) = ground arith
sub-add (negsuc a) (pos b) = ground arith
sub-add (negsuc a) (negsuc b) = ground arith

pos_inj : {a b : ℕ} → pos a ≡ pos b → a ≡ b
pos_inj e = cc e

negsuc_inj : {a b : ℕ} → negsuc a ≡ negsuc b → a ≡ b
negsuc_inj e = cc e

some_inj : {a b : ℤ} → some a ≡ some b → a ≡ b
some_inj e = cc e

returned_inj : {a b : Bool} → returned a ≡ returned b → a ≡ b
returned_inj e = cc e

false_returned : returned false ≡ returned true → ⊥
false_returned e = cc e

eqb_ℤ_iff : (a b : ℤ) → (eqb_ℤ a b ≡ true) ↔ (a ≡ b)
eqb_ℤ_iff (pos a) (pos b) = (λ h. ap pos (ground arith), λ e. ground (arith, pos_inj e))
eqb_ℤ_iff (pos a) (negsuc b) = (λ h. absurd (ground arith), λ e. cc e)
eqb_ℤ_iff (negsuc a) (pos b) = (λ h. absurd (ground arith), λ e. cc e)
eqb_ℤ_iff (negsuc a) (negsuc b) = (λ h. ap negsuc (ground arith), λ e. ground (arith, negsuc_inj e))

abbrev pub money : ℤ → String → Money
money a currency = record { amount = some a; currency = currency }

-- Add succeeds on two amounts of a currency, and Subtract of the second gives the first again.
pub subtract-add :
    (a b : ℤ) (currency : String)
    → (add (money a currency) (money b currency) ≡ returned (money (a +ℤ b) currency))
      × (subtract (money (a +ℤ b) currency) (money b currency) ≡ returned (money a currency))
unfolding add subtract with_amounts
subtract-add a b currency =
    let same = ==_refl currency in
    (rw (add, same) refl, rw (subtract, same) (ap (λ z. returned (money z currency)) (sub-add a b)))

-- Amounts of two currencies are neither added nor subtracted.
pub add_mismatch :
    (m other : Money)
    → m.currency ≢ other.currency
    → (add m other ≡ currency_mismatch m.currency other.currency)
      × (subtract m other ≡ currency_mismatch m.currency other.currency)
unfolding add subtract
add_mismatch m other n =
    let differ = ==_of_ne m.currency other.currency n in
    (rw (add, differ) refl, rw (subtract, differ) refl)

-- Equals is equality, on amounts that are there.
pub equals_iff :
    (a b : ℤ) (c d : String)
    → (equals (money a c) (money b d) ≡ returned true) ↔ (money a c ≡ money b d)
unfolding equals with_amounts
equals_iff a b c d = (
  λ h. elim (Bool-cases (c == d)) [
    | inl same ↦
        ap₂ money ((eqb_ℤ_iff a b).0 (returned_inj (rw (equals, same) at h))) (eq_of_== c d same)
    | inr differ ↦ absurd (false_returned (rw (equals, differ) at h))
  ],
  λ e.
      let same_amount = (eqb_ℤ_iff a b).1 (some_inj (ap (λ (m : Money). m.amount) e)) in
      let same_currency : (c == d) ≡ true = rw (ap (λ (m : Money). m.currency) e) (==_refl d) in
      rw (equals, same_currency, same_amount) refl,
)
