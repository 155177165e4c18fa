-- ===== src/Loader/Ends.antt =====
-- split_string returns.
use vimbax_ros2_driver.Common.{
  ℕ, zero, suc, ◌+◌, ◌-◌, ◌≤◌, ◌<◌, ◌≡◌, some, List, [], ◌∷◌, length, take, drop, Exit, value,
  error, aborted, arith, Option-cases, inl, inr,
}
use vimbax_ros2_driver.Loader.{npos, index_of, find, substr, add_part, split_from, split_string}

index_of-lt : (c : ℕ) (xs : List ℕ) (i : ℕ) → index_of c xs ≡ some i → i < length xs
unfolding index_of
index_of-lt c [] i e = ground arith
index_of-lt c (x ∷ xs) i e = elim (Option-cases (index_of c xs)) [
  | inl n ↦ ground arith
  | inr (j, s) ↦ ground (arith, index_of-lt c xs j s)
]

pub length-drop : (n : ℕ) (xs : List ℕ) → length (drop n xs) ≡ length xs - n
length-drop zero xs = omega arith
length-drop (suc n) [] = omega arith
length-drop (suc n) (x ∷ xs) = omega (arith, length-drop n xs)

find-bounds :
    (c start : ℕ) (text : List ℕ) (end : ℕ)
    → find c start text ≡ some end
    → (start ≤ end) × (end < length text)
unfolding find
find-bounds c start text end e = elim (Option-cases (index_of c (drop start text))) [
  | inl n ↦ ground arith
  | inr (j, s) ↦ ground (arith, index_of-lt c (drop start text) j s, length-drop start text)
]

-- The body returned a value.
abbrev pub IsValue : {A : Type 0} → Exit A → Type 0
IsValue (value a) = Unit {0}
IsValue (error e) = ⊥
IsValue (aborted x) = ⊥

add_part-IsValue :
    (part : List ℕ) (rest : Exit (List (List ℕ)))
    → IsValue rest
    → IsValue (add_part (value part) rest)
add_part-IsValue part (value parts) h = tt
add_part-IsValue part (error e) h = h
add_part-IsValue part (aborted x) h = h

pub substr-value :
    (start count : ℕ) (text : List ℕ)
    → start ≤ length text
    → substr start count text ≡ value (take count (drop start text))
unfolding substr
substr-value start count text h = ground arith

split_from-IsValue :
    (c fuel start : ℕ) (text : List ℕ)
    → start ≤ length text
    → length text < start + fuel
    → IsValue (split_from c fuel start text)
unfolding split_from
split_from-IsValue c zero start text h f = absurd (omega arith)
split_from-IsValue c (suc fuel) start text h f = elim (Option-cases (find c start text)) [
  | inl e ↦ simp (split_from, e, substr-value start npos text h) tt
  | inr (end, e) ↦
      simp (split_from, e, substr-value start end text h)
        (add_part-IsValue _ _ (
          split_from-IsValue c fuel (end + 1) text (omega (arith, find-bounds c start text end e))
            (omega (arith, find-bounds c start text end e))))
]

-- split_string ends on every text, and no substr in it throws.
pub split_string-IsValue : (c : ℕ) (text : List ℕ) → IsValue (split_string c text)
unfolding split_string
split_string-IsValue c [] = tt
split_string-IsValue c (x ∷ text) =
    split_from-IsValue c (length (x ∷ text) + 1) 0 (x ∷ text) (omega arith) (omega arith)
