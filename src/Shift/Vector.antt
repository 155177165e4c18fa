-- ===== src/Shift/Vector.antt =====
-- The vector versions against the plain one.
use vimbax_ros2_driver.Common.{
  ℕ, zero, suc, ◌+◌, ◌*◌, ◌/◌, ◌%◌, ◌≤◌, ◌<◌, ◌^◌, ◌≡◌, refl, ap, ◌∙◌, true, false, some, ltb, List,
  [], ◌∷◌, ◌++◌, drop, length, arith, ◌==◌, ==_iff,
}
use native.Mathlib.Nat.{zero-add, suc-add}
use vimbax_ros2_driver.Shift.{
  shift_word, shift_words, left_shift16_default, shift_lanes, vector_loop, left_shift16_vector,
}

-- The first words in one step, the rest in a loop of its own.
shift_words-add :
    (shift m n : ℕ) (out input : List ℕ)
    → m ≤ length out
    → m ≤ length input
    → shift_words shift (m + n) out input
      ≡ shift_lanes shift m input ++ shift_words shift n (drop m out) (drop m input)
unfolding shift_words
shift_words-add shift zero n out input p q = rw zero-add refl
shift_words-add shift (suc m) n [] input p q = absurd (omega arith)
shift_words-add shift (suc m) n (o ∷ out) [] p q = absurd (omega arith)
shift_words-add shift (suc m) n (o ∷ out) (x ∷ input) p q = rw (suc-add m n) (
    ap (◌∷◌ (shift_word shift x)) (shift_words-add shift m n out input (omega arith) (omega arith)))

length-drop-le : (m n : ℕ) (xs : List ℕ) → m + n ≤ length xs → n ≤ length (drop m xs)
length-drop-le zero n xs h = omega arith
length-drop-le (suc m) n [] h = absurd (omega arith)
length-drop-le (suc m) n (x ∷ xs) h = length-drop-le m n xs (omega arith)

default_ends :
    (out input : List ℕ) (size shift : ℕ)
    → size < 2 ^ 33
    → left_shift16_default out input size shift ≡ some (shift_words shift (size / 2) out input)
unfolding left_shift16_default
default_ends out input size shift h = ground arith

-- The vector loop with the plain version behind it is the plain loop over all the words.
vector_loop-lem :
    (shift lanes rem quot : ℕ) (out input : List ℕ)
    → rem < 2 ^ 33
    → quot * lanes + rem / 2 ≤ length out
    → quot * lanes + rem / 2 ≤ length input
    → vector_loop shift lanes (λ o i. left_shift16_default o i rem shift) quot out input
      ≡ some (shift_words shift (quot * lanes + rem / 2) out input)
unfolding vector_loop
vector_loop-lem shift lanes rem zero out input b p q =
    default_ends out input rem shift b
    ∙ ap (λ (n : ℕ). some (shift_words shift n out input)) (omega arith)
vector_loop-lem shift lanes rem (suc quot) out input b p q =
    let e : suc quot * lanes + rem / 2 ≡ lanes + (quot * lanes + rem / 2) = omega arith in
    let ih =
      vector_loop-lem shift lanes rem quot (drop lanes out) (drop lanes input) b
        (length-drop-le lanes _ out (omega arith)) (length-drop-le lanes _ input (omega arith)) in
    rw
      (
        ih,
        e,
        shift_words-add shift lanes (quot * lanes + rem / 2) out input (omega arith) (omega arith),
      )
      refl

-- In the words of the vector loop and of its remainder there are as many words as in the size.
words_split :
    (size lanes : ℕ) → 0 < lanes → size / (2 * lanes) * lanes + size % (2 * lanes) / 2 ≡ size / 2
words_split size lanes h = grind arith

one_vector : (size lanes : ℕ) → 0 < lanes → 2 * lanes ≤ size → 0 < size / (2 * lanes)
one_vector size lanes h fits = grind arith

div_below : (size n : ℕ) → size < n → size / n ≡ 0
div_below size n h = grind arith

rem_below : (size lanes : ℕ) → 0 < lanes → size < 2 ^ 33 → size % (2 * lanes) < 2 ^ 33
rem_below size lanes h b = grind arith

quot_below : (size lanes : ℕ) → 0 < lanes → size < 2 ^ 33 → size / (2 * lanes) < 2 ^ 32
quot_below size lanes h b = grind arith

-- Where at least one whole vector fits the size, the size is below 2 ^ 33 bytes, and both buffers hold
-- that many bytes, a vector version of any width and the plain version both end, with the same words.
pub left_shift16_vector-default :
    (lanes : ℕ) (out input : List ℕ) (size shift : ℕ)
    → 0 < lanes
    → 2 * lanes ≤ size
    → size < 2 ^ 33
    → size ≤ 2 * length out
    → size ≤ 2 * length input
    → (left_shift16_vector lanes out input size shift ≡ left_shift16_default out input size shift)
      × (left_shift16_default out input size shift ≡ some (shift_words shift (size / 2) out input))
unfolding left_shift16_vector
left_shift16_vector-default lanes out input size shift h fits b p q =
    let w = words_split size lanes h in
    let ends = default_ends out input size shift b in
    let some_fit : (size / (2 * lanes) == 0) ≡ false =
      ground (arith, one_vector size lanes h fits, ==_iff (size / (2 * lanes)) 0) in
    let counted : ltb (size / (2 * lanes)) (2 ^ 32) ≡ true =
      ground (arith, quot_below size lanes h b) in
    let loop =
      vector_loop-lem shift lanes (size % (2 * lanes)) (size / (2 * lanes)) out input
        (rem_below size lanes h b) (omega (arith, w)) (omega (arith, w)) in
    (
      rw (some_fit, counted, loop, ends) (ap (λ (n : ℕ). some (shift_words shift n out input)) w),
      ends,
    )

-- Where not even one vector fits the size, a vector version leaves the output as it was: no word of
-- the input is shifted into it.
pub left_shift16_vector-short :
    (lanes : ℕ) (out input : List ℕ) (size shift : ℕ)
    → size < 2 * lanes
    → left_shift16_vector lanes out input size shift ≡ some out
unfolding left_shift16_vector
left_shift16_vector-short lanes out input size shift h =
    rw ((==_iff (size / (2 * lanes)) 0).1 (div_below size (2 * lanes) h)) refl
