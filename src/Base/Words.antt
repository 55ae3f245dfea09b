-- ===== src/Base/Words.antt =====
-- Go's `int` and `int64`, as 64-bit patterns: a pattern below 2 ^ 63 is itself, any other is
-- negative. Sums wrap, and comparisons are signed.
use Prim.Native.Nat.{ℕ, ◌+◌, ◌-◌, ◌%◌}
use mathlib.Core.Bool.{Bool, ◌&&◌}
use payment_orchestrator.Base.Tests.{ltb}

abbrev pub two63 : ℕ
two63 = 9223372036854775808

abbrev pub two64 : ℕ
two64 = 18446744073709551616

abbrev pub add64 : ℕ → ℕ → ℕ
add64 a b = (a + b) % two64

abbrev pub sub64 : ℕ → ℕ → ℕ
sub64 a b = (a + two64 - b) % two64

-- Signed `a < b`: adding 2 ^ 63 moves the signed order to the order of the patterns.
abbrev pub lt64 : ℕ → ℕ → Bool
lt64 a b = ltb (add64 a two63) (add64 b two63)

-- Signed `a <= 0` is the negation of this.
abbrev pub is_positive : ℕ → Bool
is_positive a = ltb 0 a && ltb a two63
