-- ===== src/Prelude/Word.antt =====
-- Go's 64-bit `int`, `int64` and `time.Duration` as integers whose arithmetic wraps around, and
-- the saturating difference of two instants (`time.Time.Sub`).
use microservices_base.Prelude.{ℕ, ◌-◌, ◌%◌, ◌≤◌, ◌<◌, ◌≡◌, arith, ltb, if◌then◌else◌}
use microservices_base.Prelude.Int.{ℤ, pos, negsuc, pos_part, neg_part, ◌+ℤ◌, ◌-ℤ◌, ◌*ℤ◌}

-- 2 ^ 63 and 2 ^ 64.
abbrev pub half_word : ℕ
half_word = 9223372036854775808

abbrev pub full_word : ℕ
full_word = 18446744073709551616

-- The value that the low 64 bits stand for in two's complement.
unfoldable pub wrap64 : ℤ → ℤ
wrap64 (pos n) =
    let r = n % full_word in if ltb r half_word then pos r else negsuc (full_word - 1 - r)
wrap64 (negsuc n) =
    let r = n % full_word in if ltb r half_word then negsuc r else pos (full_word - 1 - r)

-- The values of a signed 64-bit word.
abbrev pub InInt64 : ℤ → Type 0
InInt64 a = (pos_part a < half_word) × (neg_part a ≤ half_word)

pub wrap64-InInt64 : (a : ℤ) → InInt64 (wrap64 a)
unfolding wrap64
wrap64-InInt64 (pos n) = ground arith
wrap64-InInt64 (negsuc n) = ground arith

pub wrap64_of_InInt64 : (a : ℤ) → InInt64 a → wrap64 a ≡ a
unfolding wrap64
wrap64_of_InInt64 (pos n) h = ground arith
wrap64_of_InInt64 (negsuc n) h = ground arith

-- `a + b`, `a - b` and `a * b` on words.
abbrev pub add64 : ℤ → ℤ → ℤ
add64 a b = wrap64 (a +ℤ b)

abbrev pub sub64 : ℤ → ℤ → ℤ
sub64 a b = wrap64 (a -ℤ b)

abbrev pub mul64 : ℤ → ℤ → ℤ
mul64 a b = wrap64 (a *ℤ b)

clamp64 : ℤ → ℤ
clamp64 (pos n) = if ltb n half_word then pos n else pos (half_word - 1)
clamp64 (negsuc n) = if ltb n half_word then negsuc n else negsuc (half_word - 1)

-- `now.Sub(t)`: the difference, held at the largest and smallest duration.
unfoldable pub sub_time : ℤ → ℤ → ℤ
unfolding clamp64
sub_time now t = clamp64 (now -ℤ t)
