-- ===== src/FileUpload/Processor/Delay.antt =====
-- The delays between the attempts of a task.
use Prim.Native.Nat.{min}
use native.Mathlib.Omega.{arith}
use native.Mathlib.Nat.{pow-succ', mul_assoc, mul-le-mul_left}
use microservices_base.Prelude.{ℕ, zero, suc, ◌*◌, ◌^◌, ◌≤◌, ◌<◌, ◌≡◌, ◌∙◌, sym, subst, ap}
use microservices_base.Prelude.Int.{pos, ◌*ℤ◌}
use microservices_base.Prelude.Word.{mul64, wrap64, wrap64_of_InInt64, half_word}
use microservices_base.FileUpload.Processor.{Processor, double_delay, calculate_retry_delay}

one-le-pow : (n : ℕ) → 1 ≤ 2 ^ n
one-le-pow zero = omega arith
one-le-pow (suc n) = omega (arith, pow-succ' 2 n, one-le-pow n)

doubled : (b : ℕ) → b * 2 < half_word → mul64 (pos b) (pos 2) ≡ pos (b * 2)
doubled b h = ap wrap64 product ∙ wrap64_of_InInt64 (pos (b * 2)) (h, omega arith)
  where
    product : pos b *ℤ pos 2 ≡ pos (b * 2)
    product = ground arith

double_delay_pow : (n b : ℕ) → b * 2 ^ n < half_word → double_delay n (pos b) ≡ pos (b * 2 ^ n)
unfolding double_delay
double_delay_pow zero b h = ap pos (omega arith)
double_delay_pow (suc n) b h =
    let shift : b * 2 ^ suc n ≡ b * 2 * 2 ^ n =
      ap (λ m. b * m) (pow-succ' 2 n) ∙ sym (mul_assoc b 2 (2 ^ n)) in
    let small : b * 2 * 2 ^ n < half_word = subst (λ m. m < half_word) shift h in
    let first : b * 2 * 1 ≤ b * 2 * 2 ^ n = mul-le-mul_left (b * 2) (one-le-pow n) in
    ap (double_delay n) (doubled b (omega arith))
    ∙ double_delay_pow n (b * 2) small
    ∙ ap pos (sym shift)

-- While the doubled delay stays within 64 bits, it is the base delay times 2 ^ retries, held at five
-- minutes.
pub calculate_retry_delay-min :
    (n b : ℕ) (p : Processor)
    → p.base_delay ≡ pos b
    → b * 2 ^ n < half_word
    → calculate_retry_delay n p ≡ pos (min (b * 2 ^ n) 300000000000)
unfolding calculate_retry_delay
calculate_retry_delay-min n b p e h =
    rw (calculate_retry_delay, e, double_delay_pow n b h) (ground arith)
