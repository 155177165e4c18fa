-- ===== src/Shift.antt =====
-- vimbax_camera_helper.cpp: left_shift16, its plain version and the vector versions. A buffer is the
-- list of its 16-bit words, and the sizes are in bytes; the odd byte of an odd size is never touched.
-- `out` and `in` are the same buffer or apart: each word of `out` depends on the word of `in` at its
-- own place only.
pub mod Vector
use vimbax_ros2_driver.Common.{
  ℕ, zero, suc, ◌+◌, ◌-◌, ◌*◌, ◌/◌, ◌%◌, ◌^◌, List, [], ◌∷◌, ◌++◌, take, drop, ltb, Option, none,
  some, ◌==◌, if◌then◌else◌, map,
}

-- `(uint16_t)(x << shift)`
abbrev pub shift_word : ℕ → ℕ → ℕ
shift_word shift x = x * 2 ^ shift % 2 ^ 16

-- The loop of left_shift16_default over `n` words: those of `out` past them stay.
unfoldable pub shift_words : ℕ → ℕ → List ℕ → List ℕ → List ℕ
shift_words shift zero out input = out
shift_words shift (suc n) [] input = []
shift_words shift (suc n) (o ∷ out) [] = o ∷ out
shift_words shift (suc n) (o ∷ out) (x ∷ input) = shift_word shift x ∷ shift_words shift n out input

-- None where the loop never ends: its counter is a uint32_t, and `size / 2` more than that.
unfoldable pub left_shift16_default : List ℕ → List ℕ → ℕ → ℕ → Option (List ℕ)
unfolding shift_words
left_shift16_default out input size shift =
    if ltb (size / 2) (2 ^ 32) then some (shift_words shift (size / 2) out input) else none

-- One vector operation, `lanes` words wide: as many words at once.
abbrev pub shift_lanes : ℕ → ℕ → List ℕ → List ℕ
shift_lanes shift lanes input = map (shift_word shift) (take lanes input)

-- The loop over `quot` vectors, and what `rest` makes of the words behind them.
unfoldable pub vector_loop :
    ℕ → ℕ → (List ℕ → List ℕ → Option (List ℕ)) → ℕ → List ℕ → List ℕ → Option (List ℕ)
vector_loop shift lanes rest zero out input = rest out input
vector_loop shift lanes rest (suc quot) out input =
    elim (vector_loop shift lanes rest quot (drop lanes out) (drop lanes input)) [
      | none ↦ none
      | some words ↦ some (shift_lanes shift lanes input ++ words)
    ]

-- A vector version: `ldiv(size, 2 * lanes)`, the loop, whose counter is a uint32_t too, and
-- `if (div.quot != 0)` the plain version on the remainder. `lanes` is 16 for AVX2, and 8 for SSE2 and
-- NEON.
unfoldable pub left_shift16_vector : ℕ → List ℕ → List ℕ → ℕ → ℕ → Option (List ℕ)
unfolding vector_loop left_shift16_default
left_shift16_vector lanes out input size shift =
    let quot = size / (2 * lanes) in
    let rem = size % (2 * lanes) in
    if quot == 0
    then some out
    else if ltb quot (2 ^ 32)
    then vector_loop shift lanes (λ o i. left_shift16_default o i rem shift) quot out input
    else none

unfoldable pub left_shift16_avx2 : List ℕ → List ℕ → ℕ → ℕ → Option (List ℕ)
left_shift16_avx2 = left_shift16_vector 16

unfoldable pub left_shift16_sse2 : List ℕ → List ℕ → ℕ → ℕ → Option (List ℕ)
left_shift16_sse2 = left_shift16_vector 8

unfoldable pub left_shift16_neon : List ℕ → List ℕ → ℕ → ℕ → Option (List ℕ)
left_shift16_neon = left_shift16_vector 8
