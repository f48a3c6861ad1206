-- ===== src/Words.antt =====
-- int64 as the bit pattern of its two's complement, a number below 2 ^ 64.
use nvidia_gpu_scheduler.Prelude.{ℕ, ◌+◌, ◌%◌, ◌<◌, ◌≡◌, Bool, ltb, arith}

abbrev pub i64_mod : ℕ
i64_mod = 18446744073709551616

-- 2 ^ 63: the patterns below it are the numbers that are not negative.
abbrev pub i64_sign : ℕ
i64_sign = 9223372036854775808

abbrev pub add_i64 : ℕ → ℕ → ℕ
add_i64 a b = (a + b) % i64_mod

-- a > b, of signed numbers
abbrev pub gt_i64 : ℕ → ℕ → Bool
gt_i64 a b = ltb ((b + i64_sign) % i64_mod) ((a + i64_sign) % i64_mod)

-- On numbers that are not negative the signed comparison is that of ℕ.
pub gt_i64-ltb : (a b : ℕ) → a < i64_sign → b < i64_sign → gt_i64 a b ≡ ltb b a
gt_i64-ltb a b h k = ground arith
