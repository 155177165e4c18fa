-- ===== src/Camera/Frames/Align.antt =====
-- The size of a frame's buffer, aligned and not.
use vimbax_ros2_driver.Common.{
  ℕ, ◌+◌, ◌-◌, ◌*◌, ◌%◌, ◌^◌, ◌≤◌, ◌<◌, ◌≡◌, arith, ◌↔◌, true, false, ltb, ◌==◌, ==_iff, Bool-cases,
  inl, inr, ℤ, if◌then◌else◌, ◌/◌,
}
use vimbax_ros2_driver.Common.Bits.{bit_and-mask, two-pow-pos}
use native.Mathlib.Nat.{
  mod-lt, mod_self, mod-one, mod-eq_of_lt, mul-mod_left, div-add-mod', add-zero,
}
use vimbax_ros2_driver.Camera.Frames.{aligned_size, make_frame}

-- With a power of two for alignment, the lambda adds what the size lacks to a multiple.
aligned_size-mod :
    (k size : ℕ)
    → aligned_size size (2 ^ k)
      ≡ (if ltb 1 (2 ^ k) then (size + (2 ^ k - size % 2 ^ k) % 2 ^ k) % 2 ^ 64 else size)
unfolding aligned_size
aligned_size-mod k size = simp bit_and-mask

-- Rounding up by remainders.
round_mod : (n s : ℕ) → 0 < n → (s + (n - s % n) % n) % n ≡ 0
round_mod n s h = elim (Bool-cases (s % n == 0)) [
  | inl whole ↦
      let e : s % n ≡ 0 = (==_iff _ 0).0 whole in
      let z : n - s % n ≡ n = omega arith in rw (z, mod_self n) (rw add-zero e)
  | inr part ↦
      let r : n - s % n < n = ground arith in
      let e : s + (n - s % n) ≡ (s / n + 1) * n =
        grind (arith, div-add-mod' s n, mod-lt s {m = n} h) in
      rw (mod-eq_of_lt r, e) (mul-mod_left (s / n + 1) n)
]

round_bounds : (n s : ℕ) → 0 < n → (s ≤ s + (n - s % n) % n) × (s + (n - s % n) % n < s + n)
round_bounds n s h = (omega arith, omega (arith, mod-lt (n - s % n) {m = n} h))

round_up :
    (n s : ℕ)
    → 0 < n
    → s + n < 2 ^ 64
    → let r = if ltb 1 n then (s + (n - s % n) % n) % 2 ^ 64 else s in
      (s ≤ r) × (r < s + n) × (r % n ≡ 0)
round_up n s h fits = elim (Bool-cases (ltb 1 n)) [
  | inl aligned ↦
      let fit : s + (n - s % n) % n < 2 ^ 64 = omega (arith, round_bounds n s h) in
      rw (aligned, mod-eq_of_lt fit)
        ((round_bounds n s h).0, (round_bounds n s h).1, round_mod n s h)
  | inr plain ↦
      let e : n ≡ 1 = ground arith in rw plain (omega arith, omega arith, rw e (mod-one s))
]

-- With a power of two for alignment, and while size_t does not overflow, the aligned size is the
-- least multiple of the alignment that is not below the size.
pub aligned_size-least :
    (k size : ℕ)
    → size + 2 ^ k < 2 ^ 64
    → (size ≤ aligned_size size (2 ^ k))
      × (aligned_size size (2 ^ k) < size + 2 ^ k)
      × (aligned_size size (2 ^ k) % 2 ^ k ≡ 0)
aligned_size-least k size fits =
    rw (aligned_size-mod k size) (round_up (2 ^ k) size (two-pow-pos k) fits)

-- A new frame for an image of `real_size` bytes and a payload of `size` bytes, under an alignment that is
-- a power of two and with size plus alignment below 2 ^ 64: the frame is never larger than the image,
-- and less than one alignment smaller. A buffer that the driver hands over has the
-- size that it announces, and without a buffer the image has its full size.
pub make_frame-size :
    (context k size real_size : ℕ) (line : ℤ)
    → size + 2 ^ k < 2 ^ 64
    → let f = make_frame context line real_size size (aligned_size size (2 ^ k)) in
      (f.size ≤ real_size)
      × (real_size < f.size + 2 ^ k)
      × ((f.vmb_frame.buffer ≡ true) ↔ (real_size ≡ aligned_size size (2 ^ k)))
      × (f.vmb_frame.buffer ≡ true → f.vmb_frame.buffer_size ≡ f.size)
      × (f.vmb_frame.buffer ≡ false → f.size ≡ real_size)
unfolding make_frame
make_frame-size context k size real_size line fits =
    ground (arith, aligned_size-least k size fits, two-pow-pos k)
