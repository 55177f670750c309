-- ===== src/Domain/Money/Tests.antt =====
-- Runs of money.go.
use microservices_base.Prelude.{◌≡◌, refl}
use microservices_base.Prelude.Eq.{comparable_string}
use microservices_base.Prelude.Int.{pos, negsuc}
use microservices_base.Prelude.Assoc.{lookup}
use microservices_base.Domain.Money.{
  returned, unsupported_currency, new_money, divide, with_amounts,
}
use microservices_base.Domain.Money.Arithmetic.{money}

new_money_run : new_money (pos 5) "XYZ" ≡ unsupported_currency "XYZ"
unfolding new_money lookup
new_money_run = refl

-- The division rounds downwards.
divide_run : divide (money (negsuc 6) "USD") (pos 2) ≡ returned (money (negsuc 3) "USD")
unfolding divide with_amounts
divide_run = refl
