-- ===== src/Base/Int.antt =====
-- Signed integers over the native numbers, and the conversion of a C `long` to an `int`.
use Prim.Native.Nat.{ℕ, ◌-◌, ◌%◌, ◌<◌}
use mathlib.Core.Path.{◌≡◌}
use mathlib.Core.Bool.{Bool, false}
use native.Mathlib.Omega.{arith}
use pyreticulate.Base.Tests.{ltb, ◌==◌, if◌then◌else◌}

-- `negsuc n` is -(n + 1).
pub data ℤ : Type 0 where
  pos : ℕ → ℤ
  negsuc : ℕ → ℤ

abbrev pub int_eq : ℤ → ℤ → Bool
int_eq (pos a) (pos b) = a == b
int_eq (negsuc a) (negsuc b) = a == b
int_eq _ _ = false

-- The value of a bit pattern of 32 bits in two's complement.
abbrev pub signed32 : ℕ → ℤ
signed32 n = if ltb n 2147483648 then pos n else negsuc (4294967295 - n)

-- `(int) v`: the low 32 bits of the value, read in two's complement.
unfoldable pub to_int32 : ℤ → ℤ
to_int32 (pos n) = signed32 (n % 4294967296)
to_int32 (negsuc n) = signed32 (4294967295 - n % 4294967296)

abbrev pub IsInt32 : ℤ → Type 0
IsInt32 (pos n) = n < 2147483648
IsInt32 (negsuc n) = n < 2147483648

-- INT_MIN, which R reads as NA.
abbrev pub na_integer : ℤ
na_integer = negsuc 2147483647

-- A value that an `int` holds is kept.
pub to_int32-IsInt32 : (z : ℤ) → IsInt32 z → to_int32 z ≡ z
unfolding to_int32
to_int32-IsInt32 (pos n) h = ground arith
to_int32-IsInt32 (negsuc n) h = ground arith
