-- ===== src/Prelude/Int64.antt =====
-- Go's `int64`, `int` and `uint64` as 64-bit patterns, numbers below 2 ^ 64. A negative value has its
-- top bit set; sums and differences wrap round.
use Prim.Native.Nat.{ℕ, ◌+◌, ◌-◌, ◌%◌, ◌^◌, ◌≤◌, ◌<◌}
use mathlib.Core.Path.{◌≡◌}
use mathlib.Core.Bool.{Bool}
use native.Mathlib.Omega.{arith}
use package.go_build_cache.Prelude.Tests.{ltb, leb}

abbrev pub two64 : ℕ
two64 = 2 ^ 64

abbrev pub two63 : ℕ
two63 = 2 ^ 63

-- int64(-1)
abbrev pub minus_one : ℕ
minus_one = 2 ^ 64 - 1

unfoldable pub add64 : ℕ → ℕ → ℕ
add64 a b = (a + b) % two64

unfoldable pub sub64 : ℕ → ℕ → ℕ
sub64 a b = (a + two64 - b % two64) % two64

-- Flipping the top bit turns the signed order into the order of the patterns.
abbrev biased : ℕ → ℕ
biased a = (a + two63) % two64

unfoldable pub lt64 : ℕ → ℕ → Bool
lt64 a b = ltb (biased a) (biased b)

unfoldable pub le64 : ℕ → ℕ → Bool
le64 a b = leb (biased a) (biased b)

-- Between non-negative values the signed tests and the exact sums are those of the numbers.
pub le64_nonneg : (a b : ℕ) → a < two63 → b < two63 → le64 a b ≡ leb a b
unfolding le64
le64_nonneg a b ha hb = ground arith

pub lt64_nonneg : (a b : ℕ) → a < two63 → b < two63 → lt64 a b ≡ ltb a b
unfolding lt64
lt64_nonneg a b ha hb = ground arith

pub add64_exact : (a b : ℕ) → a + b < two64 → add64 a b ≡ a + b
unfolding add64
add64_exact a b h = omega arith

pub sub64_exact : (a b : ℕ) → b ≤ a → a < two64 → sub64 a b ≡ a - b
unfolding sub64
sub64_exact a b h k = omega arith
