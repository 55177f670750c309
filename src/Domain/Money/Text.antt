-- ===== src/Domain/Money/Text.antt =====
-- What String prints.
use Prim.Native.String.{◌++◌}
use native.Mathlib.Omega.{arith}
use microservices_base.Prelude.{ℕ, ◌+◌, ◌<◌, ◌≡◌, sym, ap, ap₂, ◌∙◌, some, String}
use microservices_base.Prelude.Eq.{comparable_string}
use microservices_base.Prelude.Assoc.{lookup}
use microservices_base.Prelude.Int.{pos, negsuc, quot_ℕ}
use microservices_base.Prelude.Word.{wrap64_of_InInt64}
use microservices_base.Domain.Money.{
  returned, money_string, currency_decimals, in_units, places, decimal_ℤ, padded, fraction,
}

in_units_negative :
    (n : ℕ) (currency : String)
    → n < 99
    → in_units currency 2 (negsuc n) ≡ in_units currency 2 (pos (n + 1))
in_units_negative n currency small =
    ap₂ (λ q r. currency ++ " " ++ decimal_ℤ q ++ "." ++ padded 2 r) quotients remainders
  where
    quotients : quot_ℕ (negsuc n) 100 ≡ quot_ℕ (pos (n + 1)) 100
    quotients = ground arith

    remainders : fraction (negsuc n) 100 ≡ fraction (pos (n + 1)) 100
    remainders = omega arith

-- String prints an amount of fewer than 100 units below zero, in a currency of two decimals, as it
-- prints the amount above zero.
pub money_string_negative :
    (n : ℕ) (currency : String)
    → n < 99
    → lookup currency currency_decimals ≡ some 2
    → money_string (record { amount = some (negsuc n); currency = currency })
      ≡ money_string (record { amount = some (pos (n + 1)); currency = currency })
unfolding money_string
money_string_negative n currency small known = ap returned (
    ap₂ (in_units currency) (ap places known) (wrap64_of_InInt64 (negsuc n) (omega arith))
    ∙ in_units_negative n currency small
    ∙ sym
        (ap₂ (in_units currency) (ap places known) (wrap64_of_InInt64 (pos (n + 1)) (omega arith))))
