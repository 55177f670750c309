-- ===== src/Prelude/Decimal.antt =====
-- Numbers in decimal, as Go's `%d` prints them.
use Prim.Native.Char.{Char, code}
use Prim.Native.String.{[], ◌∷◌, ◌++◌, count, char_at}
use text.Mathlib.TextLemmas.{length-append, length-cons, length-nil, append_inj, head-eq_of_cons-eq}
use microservices_base.Prelude.{
  ℕ, zero, suc, ◌+◌, ◌/◌, ◌%◌, ◌≤◌, ◌<◌, ◌≡◌, refl, sym, ap, ◌∙◌, inl, inr, Bool-cases, arith, ltb,
  if◌then◌else◌, String,
}

abbrev digit : ℕ → Char
digit n = char_at "0123456789" n

code-digit : (n : ℕ) → n < 10 → code (digit n) ≡ 48 + n
code-digit zero h = refl
code-digit (suc zero) h = refl
code-digit (suc (suc zero)) h = refl
code-digit (suc (suc (suc zero))) h = refl
code-digit (suc (suc (suc (suc zero)))) h = refl
code-digit (suc (suc (suc (suc (suc zero))))) h = refl
code-digit (suc (suc (suc (suc (suc (suc zero)))))) h = refl
code-digit (suc (suc (suc (suc (suc (suc (suc zero))))))) h = refl
code-digit (suc (suc (suc (suc (suc (suc (suc (suc zero)))))))) h = refl
code-digit (suc (suc (suc (suc (suc (suc (suc (suc (suc zero))))))))) h = refl
code-digit (suc (suc (suc (suc (suc (suc (suc (suc (suc (suc n)))))))))) h = absurd (omega arith)

-- The digits of n, on as much fuel as n has digits.
unfoldable digits : ℕ → ℕ → String
digits zero n = digit n ∷ []
digits (suc fuel) n =
    let front = digits fuel (n / 10) in
    if ltb n 10 then digit n ∷ [] else front ++ (digit (n % 10) ∷ [])

pub decimal : ℕ → String
unfolding digits
decimal n = digits n n

digit_inj : (m n : ℕ) → m < 10 → n < 10 → digit m ≡ digit n → m ≡ n
digit_inj m n hm hn e = omega (arith, ap code e, code-digit m hm, code-digit n hn)

count_one : (c : Char) → count (c ∷ []) ≡ 1
count_one c = length-cons c [] ∙ ap suc length-nil

count_snoc : (s : String) (c : Char) → count (s ++ (c ∷ [])) ≡ count s + 1
count_snoc s c = length-append s (c ∷ []) ∙ ap (◌+◌ (count s)) (count_one c)

positive-count : (fuel n : ℕ) → 0 < count (digits fuel n)
unfolding digits
positive-count zero n = omega (arith, count_one (digit n))
positive-count (suc fuel) n = elim (Bool-cases (ltb n 10)) [
  | inl short ↦ rw short (omega (arith, count_one (digit n)))
  | inr long ↦ rw long (omega (arith, count_snoc (digits fuel (n / 10)) (digit (n % 10))))
]

-- Either n is one digit, or it ends with its last digit after those of n / 10.
data Shape (fuel n : ℕ) : Type 0 where
  one_digit : n < 10 → digits fuel n ≡ digit n ∷ [] → Shape fuel n
  longer :
      (rest : ℕ)
      → 10 ≤ n
      → n / 10 ≤ rest
      → rest < fuel
      → digits fuel n ≡ digits rest (n / 10) ++ (digit (n % 10) ∷ [])
      → Shape fuel n

shape : (fuel n : ℕ) → n ≤ fuel → Shape fuel n
unfolding digits
shape zero n h = one_digit (omega arith) refl
shape (suc fuel) n h = elim (Bool-cases (ltb n 10)) [
  | inl short ↦ one_digit (ground arith) (rw short refl)
  | inr long ↦ longer fuel (ground arith) (ground arith) (omega arith) (rw long refl)
]

-- A text of one digit is shorter than a longer one.
one_digit-longer : (rest m n : ℕ) → digit m ∷ [] ≡ digits rest (n / 10) ++ (digit (n % 10) ∷ []) → ⊥
one_digit-longer rest m n e = omega (
  arith,
  ap count e,
  count_one (digit m),
  count_snoc (digits rest (n / 10)) (digit (n % 10)),
  positive-count rest (n / 10),
)

last_inj : (s t : String) (c d : Char) → s ++ (c ∷ []) ≡ t ++ (d ∷ []) → (s ≡ t) × (c ≡ d)
last_inj s t c d e =
    let (front, last) =
      append_inj {s₁ = s} {s₂ = t} {t₁ = c ∷ []} {t₂ = d ∷ []} e
        (omega (arith, ap count e, count_snoc s c, count_snoc t d)) in
    (front, head-eq_of_cons-eq last)

digits_inj : (bound f g m n : ℕ) → f < bound → m ≤ f → n ≤ g → digits f m ≡ digits g n → m ≡ n
digits_inj zero f g m n hb hm hn e = absurd (omega arith)
digits_inj (suc bound) f g m n hb hm hn e = elim (shape f m hm) [
  | one_digit a p ↦ elim (shape g n hn) [
    | one_digit b q ↦ digit_inj m n a b (head-eq_of_cons-eq (sym p ∙ e ∙ q))
    | longer r b c d q ↦ absurd (one_digit-longer r m n (sym p ∙ e ∙ q))
  ]
  | longer r a c d p ↦ elim (shape g n hn) [
    | one_digit b q ↦ absurd (one_digit-longer r n m (sym q ∙ sym e ∙ p))
    | longer r' b c' d' q ↦
        let (front, last) =
          last_inj (digits r (m / 10)) (digits r' (n / 10)) (digit (m % 10)) (digit (n % 10))
            (sym p ∙ e ∙ q) in
        let tens = digits_inj bound r r' (m / 10) (n / 10) (omega arith) c c' front in
        let units = digit_inj (m % 10) (n % 10) (ground arith) (ground arith) last in omega arith
  ]
]

pub decimal_inj : (m n : ℕ) → decimal m ≡ decimal n → m ≡ n
unfolding decimal
decimal_inj m n e = digits_inj (suc m) m n m n (omega arith) (omega arith) (omega arith) e
