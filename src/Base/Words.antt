-- ===== src/Base/Words.antt =====
-- Machine words: a value of a w-bit type is its bit pattern, a number below 2 ^ w. Signed types are
-- two's complement, so the operations on patterns are those of the unsigned type.
use Prim.Native.Nat.{ℕ, ◌+◌, ◌-◌, ◌*◌, ◌%◌, ◌^◌, ◌≤◌, ◌<◌}
use mathlib.Core.Path.{◌≡◌}
use mathlib.Core.Bool.{Bool, true}
use native.Mathlib.Omega.{arith}
use polaris_cpp.Base.Tests.{ltb, leb}

abbrev pub add32 : ℕ → ℕ → ℕ
add32 a b = (a + b) % 2 ^ 32

abbrev pub sub32 : ℕ → ℕ → ℕ
sub32 a b = (a + 2 ^ 32 - b) % 2 ^ 32

-- `a < b` and `a <= b` of two `int` patterns: adding 2 ^ 31 turns the signed order into the
-- unsigned one.
abbrev pub lt_int : ℕ → ℕ → Bool
lt_int a b = ltb ((a + 2 ^ 31) % 2 ^ 32) ((b + 2 ^ 31) % 2 ^ 32)

abbrev pub le_int : ℕ → ℕ → Bool
le_int a b = leb ((a + 2 ^ 31) % 2 ^ 32) ((b + 2 ^ 31) % 2 ^ 32)

abbrev pub add64 : ℕ → ℕ → ℕ
add64 a b = (a + b) % 2 ^ 64

abbrev pub sub64 : ℕ → ℕ → ℕ
sub64 a b = (a + 2 ^ 64 - b) % 2 ^ 64

abbrev pub mul64 : ℕ → ℕ → ℕ
mul64 a b = (a * b) % 2 ^ 64

-- The same for `int64_t`.
abbrev pub lt_int64 : ℕ → ℕ → Bool
lt_int64 a b = ltb ((a + 2 ^ 63) % 2 ^ 64) ((b + 2 ^ 63) % 2 ^ 64)

-- Below 2 ^ 31, where both are nonnegative, the signed order is that of the numbers.
pub le_int→le : (a b : ℕ) → a < 2 ^ 31 → b < 2 ^ 31 → le_int a b ≡ true → a ≤ b
le_int→le a b p q h = ground arith

pub le→le_int : (a b : ℕ) → a < 2 ^ 31 → b < 2 ^ 31 → a ≤ b → le_int a b ≡ true
le→le_int a b p q h = ground arith

-- Below 2 ^ 63 words add and subtract as numbers, and a difference is negative when it would be.
pub add64_exact : (a b : ℕ) → a < 2 ^ 63 → b < 2 ^ 63 → add64 a b ≡ a + b
add64_exact a b p q = omega arith

pub sub64_exact : (a b : ℕ) → a < 2 ^ 63 → b ≤ a → sub64 a b ≡ a - b
sub64_exact a b p q = omega arith

pub lt_int64-sub64 : (a b : ℕ) → a < 2 ^ 63 → b < 2 ^ 63 → lt_int64 (sub64 a b) 0 ≡ ltb a b
lt_int64-sub64 a b p q = ground arith

pub lt_int64_small : (a b : ℕ) → a < 2 ^ 63 → b < 2 ^ 63 → lt_int64 a b ≡ ltb a b
lt_int64_small a b p q = ground arith
