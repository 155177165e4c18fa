-- ===== src/Common/Int.antt =====
-- Signed integers over the native numbers.
use Prim.Native.Nat.{ℕ, zero, suc, ◌+◌, ◌-◌, ◌*◌, ◌/◌, ◌%◌, ◌^◌}
use mathlib.Core.Path.{◌≡◌}
use mathlib.Core.Logic.{◌↔◌}
use mathlib.Core.Bool.{Bool, true, false}
use native.Mathlib.Omega.{arith}
use vimbax_ros2_driver.Common.Tests.{◌==◌, leb, if◌then◌else◌}

-- `negsuc n` is -(n + 1).
pub data ℤ : Type 0 where
  pos : ℕ → ℤ
  negsuc : ℕ → ℤ

abbrev pub int_eq : ℤ → ℤ → Bool
int_eq (pos a) (pos b) = a == b
int_eq (pos a) (negsuc b) = false
int_eq (negsuc a) (pos b) = false
int_eq (negsuc a) (negsuc b) = a == b

pub int_eq_iff : (a b : ℤ) → (int_eq a b ≡ true) ↔ (a ≡ b)
int_eq_iff a b = ground arith

-- int64_t to uint64_t or size_t: reduction modulo 2^64.
abbrev pub to_u64 : ℤ → ℕ
to_u64 (pos n) = n % 2 ^ 64
to_u64 (negsuc n) = 2 ^ 64 - 1 - n % 2 ^ 64

-- int64_t to uint32_t.
abbrev pub to_u32 : ℤ → ℕ
to_u32 z = to_u64 z % 2 ^ 32

-- int64_t to int, and that to size_t: 32 bits are kept, and the sign bit is spread.
abbrev pub int_to_size : ℤ → ℕ
int_to_size z = if leb (2 ^ 31) (to_u32 z) then to_u32 z + (2 ^ 64 - 2 ^ 32) else to_u32 z

-- int64_t times an unsigned number, divided by 8 towards zero.
abbrev pub mul_div8 : ℤ → ℕ → ℤ
mul_div8 (pos a) b = pos (a * b / 8)
mul_div8 (negsuc a) b = if suc a * b / 8 == 0 then pos 0 else negsuc (suc a * b / 8 - 1)

abbrev pub neg : ℕ → ℤ
neg zero = pos 0
neg (suc n) = negsuc n

-- The product of two int64_t, while it does not overflow.
abbrev pub mul : ℤ → ℤ → ℤ
mul (pos a) (pos b) = pos (a * b)
mul (pos a) (negsuc b) = neg (a * suc b)
mul (negsuc a) (pos b) = neg (suc a * b)
mul (negsuc a) (negsuc b) = pos (suc a * suc b)
