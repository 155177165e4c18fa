-- ===== src/Common/Bits.antt =====
-- A mask of low bits is a remainder.
use Prim.Native.Nat.{
  ℕ, zero, suc, ◌+◌, ◌-◌, ◌*◌, ◌/◌, ◌%◌, ◌^◌, ◌≤◌, ◌<◌, min, bit_and, digits, bit_and-bitwise,
}
use mathlib.Core.Path.{◌≡◌, refl}
use native.Mathlib.Nat.{pow-suc, one-le-pow}
use native.Mathlib.Omega.{arith}

-- The digit recursion that the native operation stands for, on enough fuel.
abbrev and_from : ℕ → ℕ → ℕ → ℕ
and_from = digits (λ b. 0) min

and_from-zero : (fuel b : ℕ) → and_from fuel 0 b ≡ 0
and_from-zero zero b = refl
and_from-zero (suc fuel) b = refl

and_from-none : (fuel a : ℕ) → and_from fuel a 0 ≡ 0
and_from-none zero a = refl
and_from-none (suc fuel) zero = refl
and_from-none (suc fuel) (suc a) = omega (arith, and_from-none fuel (suc a / 2))

pub two-pow-pos : (k : ℕ) → 0 < 2 ^ k
two-pow-pos k = omega (arith, one-le-pow k 2 (omega arith))

mod-double : (x p : ℕ) → 0 < p → x % (p * 2) ≡ x / 2 % p * 2 + x % 2
mod-double x p h = grind arith

pred_half : (p : ℕ) → 0 < p → ((p * 2 - 1) / 2 ≡ p - 1) × ((p * 2 - 1) % 2 ≡ 1)
pred_half p h = (omega arith, omega arith)

and_from-mask : (k fuel a : ℕ) → a ≤ fuel → and_from fuel a (2 ^ k - 1) ≡ a % 2 ^ k
and_from-mask k zero zero h = omega arith
and_from-mask k zero (suc a) h = absurd (omega arith)
and_from-mask k (suc fuel) zero h = omega arith
and_from-mask zero (suc fuel) (suc a) h = omega (arith, and_from-none fuel (suc a / 2))
and_from-mask (suc k) (suc fuel) (suc a) h =
    rw (pow-suc 2 k, (pred_half (2 ^ k) (two-pow-pos k)).0, (pred_half (2 ^ k) (two-pow-pos k)).1)
      (omega (
        arith,
        mod-double (suc a) (2 ^ k) (two-pow-pos k),
        and_from-mask k fuel (suc a / 2) (omega arith),
      ))

pub bit_and-mask : (k a : ℕ) → bit_and a (2 ^ k - 1) ≡ a % 2 ^ k
bit_and-mask k zero = omega (arith, bit_and-bitwise 0 (2 ^ k - 1))
bit_and-mask k (suc a) =
    omega
      (arith, bit_and-bitwise (suc a) (2 ^ k - 1), and_from-mask k (suc a) (suc a) (omega arith))
