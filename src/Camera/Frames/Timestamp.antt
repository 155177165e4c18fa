-- ===== src/Camera/Frames/Timestamp.antt =====
-- vimbax_camera.cpp: Frame::timestamp_to_ns, over a frequency that the camera may not have.
use vimbax_ros2_driver.Common.{
  ℕ, zero, suc, ◌*◌, ◌/◌, ◌%◌, ◌^◌, ◌≤◌, ◌<◌, ◌≡◌, ap, sym, arith, ltb, ◌==◌, Option, none, some,
  Exit, value, aborted, division_by_zero, if◌then◌else◌,
}
use native.Mathlib.Nat.{div-eq_of_eq-mul_right, mul-le-mul_left, mul-le-mul_right}

-- `std::nano::den`
abbrev pub nano_den : ℕ
nano_den = 1_000_000_000

-- On uint64_t; a frequency of 0 divides by 0.
unfoldable pub timestamp_to_ns : Option ℕ → ℕ → Exit ℕ
timestamp_to_ns none timestamp = value timestamp
timestamp_to_ns (some frequency) timestamp =
    if ltb nano_den frequency
    then value (timestamp / (frequency / nano_den))
    else if frequency == 0
    then aborted division_by_zero
    else value (timestamp * (nano_den / frequency) % 2 ^ 64)

factor_pos : (f n d : ℕ) → 0 < d → f * n ≡ d → 0 < f
factor_pos zero n d h e = absurd (omega arith)
factor_pos (suc f) n d h e = omega arith

factor-le : (f n d : ℕ) → 0 < d → f * n ≡ d → f ≤ d
factor-le f zero d h e = absurd (omega arith)
factor-le f (suc n) d h e = omega arith

quotient_short : (f d : ℕ) → 0 < d % f → (d / f) * f < d
quotient_short f d h = grind arith

-- For a tick of a whole number of nanoseconds, `n` to the second, the conversion is exact.
pub timestamp_to_ns-exact :
    (frequency n timestamp : ℕ)
    → frequency * n ≡ nano_den
    → timestamp * n < 2 ^ 64
    → timestamp_to_ns (some frequency) timestamp ≡ value (timestamp * n)
unfolding timestamp_to_ns
timestamp_to_ns-exact frequency n timestamp e fits =
    let p : 0 < frequency = factor_pos frequency n nano_den (omega arith) e in
    let q : frequency ≤ nano_den = factor-le frequency n nano_den (omega arith) e in
    let d : nano_den / frequency ≡ n = div-eq_of_eq-mul_right p (sym e) in
    ground (arith, ap (λ (k : ℕ). timestamp * k) d)

shortfall : (t q f d ns : ℕ) → q * f < d → 0 < t → ns ≤ t * q → ns * f < t * d
shortfall t q f d ns h p le =
    let a : ns * f ≤ t * q * f = mul-le-mul_right f le in
    let b : t * suc (q * f) ≤ t * d = mul-le-mul_left t h in omega arith

short_result :
    (frequency timestamp ns : ℕ)
    → 0 < frequency
    → frequency ≤ nano_den
    → timestamp_to_ns (some frequency) timestamp ≡ value ns
    → ns ≤ timestamp * (nano_den / frequency)
unfolding timestamp_to_ns
short_result frequency timestamp ns p q e = ground arith

-- For any frequency up to 1 GHz that does not divide 1 GHz, every converted timestamp but 0 is
-- smaller than the time that passed: the result in nanoseconds, times the frequency, falls short of
-- the ticks times 1,000,000,000.
pub timestamp_to_ns-slow :
    (frequency timestamp : ℕ)
    → 0 < frequency
    → frequency ≤ nano_den
    → 0 < nano_den % frequency
    → 0 < timestamp
    → (ns : ℕ) → timestamp_to_ns (some frequency) timestamp ≡ value ns
    → ns * frequency < timestamp * nano_den
timestamp_to_ns-slow frequency timestamp p q r s ns e =
    shortfall timestamp (nano_den / frequency) frequency nano_den ns
      (quotient_short frequency nano_den r) s (short_result frequency timestamp ns p q e)
