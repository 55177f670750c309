-- ===== src/Domain/Money.antt =====
-- libs/go/src/domain/money.go: amounts of money in the smallest unit of a currency. `big.Int` is an
-- integer; the zero value of Money has no amount, and arithmetic on it panics.
mod Arithmetic
mod Text
mod Tests
use Prim.Native.String.{◌++◌, count}
use microservices_base.Prelude.{
  ℕ, zero, suc, ◌-◌, ◌*◌, ◌^◌, ◌/◌, ◌%◌, Bool, true, false, not, ◌&&◌, Option, none, some, List, [],
  ◌∷◌, String, ◌==◌, if◌then◌else◌, ◌>>=◌,
}
use microservices_base.Prelude.Eq.{comparable_string}
use microservices_base.Prelude.Eq
use microservices_base.Prelude.Assoc.{lookup}
use microservices_base.Prelude.Decimal.{decimal}
use microservices_base.Prelude.Int.{ℤ, pos, negsuc, ◌+ℤ◌, ◌-ℤ◌, ◌*ℤ◌, ltb_ℤ, eqb_ℤ, quot_ℕ}
use microservices_base.Prelude.Word.{wrap64}

abbrev pub currency_decimals : List (String × ℕ)
currency_decimals =
    ("USD", 2)
    ∷ ("EUR", 2)
    ∷ ("GBP", 2)
    ∷ ("JPY", 0)
    ∷ ("BRL", 2)
    ∷ ("CNY", 2)
    ∷ ("INR", 2)
    ∷ ("AUD", 2)
    ∷ ("CAD", 2)
    ∷ ("CHF", 2)
    ∷ []

pub record Money : Type 0 where
  pub amount : Option ℤ
  pub currency : String

pub data Outcome {ℓ} (A : Type ℓ) : Type ℓ where
  returned : A → Outcome A
  unsupported_currency : String → Outcome A
  currency_mismatch : String → String → Outcome A
  panicked : Outcome A

-- A value whose operation panics on an amount that is missing.
unfoldable pub with_amounts {ℓ} : {A : Type ℓ} → Option ℤ → Option ℤ → (ℤ → ℤ → A) → Outcome A
with_amounts (some a) (some b) f = returned (f a b)
with_amounts _ _ f = panicked

unfoldable pub new_money : ℤ → String → Outcome Money
new_money amount currency = elim (lookup currency currency_decimals) [
  | none ↦ unsupported_currency currency
  | some _ ↦ returned (record { amount = some amount; currency = currency })
]

abbrev pub zero_money : String → Money
zero_money currency = record { amount = some (pos 0); currency = currency }

-- `Int64` of an amount takes its low 64 bits.
unfoldable pub amount_of : Money → ℤ
amount_of m = elim m.amount [ none ↦ pos 0 | some a ↦ wrap64 a ]

unfoldable pub is_zero : Money → Bool
is_zero m = elim m.amount [ none ↦ true | some a ↦ eqb_ℤ a (pos 0) ]

unfoldable pub is_positive : Money → Bool
is_positive m = elim m.amount [ none ↦ false | some a ↦ ltb_ℤ (pos 0) a ]

unfoldable pub is_negative : Money → Bool
is_negative m = elim m.amount [ none ↦ false | some a ↦ ltb_ℤ a (pos 0) ]

unfoldable pub add : Money → Money → Outcome Money
add m other =
    if Eq.◌==◌ m.currency other.currency
    then with_amounts m.amount other.amount
        (λ a b. record { amount = some (a +ℤ b); currency = m.currency })
    else currency_mismatch m.currency other.currency

unfoldable pub subtract : Money → Money → Outcome Money
subtract m other =
    if Eq.◌==◌ m.currency other.currency
    then with_amounts m.amount other.amount
        (λ a b. record { amount = some (a -ℤ b); currency = m.currency })
    else currency_mismatch m.currency other.currency

unfoldable pub multiply : Money → ℤ → Outcome Money
multiply m factor =
    with_amounts m.amount (some factor)
      (λ a b. record { amount = some (a *ℤ b); currency = m.currency })

-- `big.Int.Div`, the Euclidean division: what remains is not negative.
abbrev pub euclid_ℕ : ℤ → ℕ → ℤ
euclid_ℕ (pos n) d = pos (n / d)
euclid_ℕ (negsuc n) d = negsuc (n / d)

unfoldable pub divide : Money → ℤ → Outcome Money
divide m (pos zero) = panicked
divide m (pos (suc d)) =
    with_amounts m.amount m.amount
      (λ a _. record { amount = some (euclid_ℕ a (suc d)); currency = m.currency })
divide m (negsuc d) =
    with_amounts m.amount m.amount
      (λ a _. record { amount = some (pos 0 -ℤ euclid_ℕ a (suc d)); currency = m.currency })

unfoldable pub equals : Money → Money → Outcome Bool
equals m other =
    if Eq.◌==◌ m.currency other.currency
    then with_amounts m.amount other.amount eqb_ℤ
    else returned false

abbrev pub decimal_ℤ : ℤ → String
decimal_ℤ (pos n) = decimal n
decimal_ℤ (negsuc n) = "-" ++ decimal (suc n)

abbrev pub zeros : ℕ → String
zeros zero = ""
zeros (suc n) = "0" ++ zeros n

-- `%0*d` of a number that is not negative.
abbrev pub padded : ℕ → ℕ → String
padded width n = zeros (width - count (decimal n)) ++ decimal n

-- The remainder of `amount % divisor` without its sign.
abbrev pub fraction : ℤ → ℕ → ℕ
fraction (pos n) divisor = n % divisor
fraction (negsuc n) divisor = suc n % divisor

abbrev pub in_units : String → ℕ → ℤ → String
in_units currency zero a = currency ++ " " ++ decimal_ℤ a
in_units currency (suc d) a =
    let divisor = 10 ^ suc d in
    currency ++ " " ++ decimal_ℤ (quot_ℕ a divisor) ++ "." ++ padded (suc d) (fraction a divisor)

-- A currency that the table does not have reads as one without decimals.
abbrev pub places : Option ℕ → ℕ
places none = 0
places (some d) = d

unfoldable pub money_string : Money → Outcome String
money_string m = elim m.amount [
  | none ↦ panicked
  | some a ↦
      returned (in_units m.currency (places (lookup m.currency currency_decimals)) (wrap64 a))
]
