-- ===== src/Prelude/Int.antt =====
-- Go's `int` and `time.Duration` as integers, and the conversion to `int32`.
use Prim.Native.Nat.{ℕ, zero, suc, ◌+◌, ◌-◌, ◌%◌, ◌^◌}
use mathlib.Core.Bool.{Bool, true, false}
use inbox.Prelude.Tests.{ltb, if◌then◌else◌}

-- `negsuc n` is -(n + 1).
pub data ℤ : Type 0 where
  pos : ℕ → ℤ
  negsuc : ℕ → ℤ

-- `n <= 0`
abbrev pub is_nonpos : ℤ → Bool
is_nonpos (pos zero) = true
is_nonpos (pos (suc n)) = false
is_nonpos (negsuc n) = true

abbrev pub negate : ℤ → ℤ
negate (pos zero) = pos zero
negate (pos (suc n)) = negsuc n
negate (negsuc n) = pos (n + 1)

-- the integer that a 32-bit pattern stands for
abbrev of_bits32 : ℕ → ℤ
of_bits32 b = if ltb b (2 ^ 31) then pos b else negsuc (2 ^ 32 - 1 - b)

-- `int32(n)` keeps the low 32 bits.
abbrev pub int32 : ℤ → ℤ
int32 (pos n) = of_bits32 (n % 2 ^ 32)
int32 (negsuc n) = of_bits32 (2 ^ 32 - 1 - n % 2 ^ 32)
