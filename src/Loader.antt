-- ===== src/Loader.antt =====
-- vimbax_camera/src/loader/vmbc_api.cpp: split_string, which takes the search paths apart. A text is
-- the list of its bytes.
pub mod Ends
pub mod Parts
pub mod Instance
use vimbax_ros2_driver.Common.{
  ℕ, zero, suc, ◌+◌, ◌-◌, ◌^◌, Bool, Option, none, some, List, [], ◌∷◌, length, take, drop, Exit,
  value, error, aborted, out_of_range, out_of_fuel, ltb, ◌==◌, if◌then◌else◌,
}

abbrev pub npos : ℕ
npos = 2 ^ 64 - 1

-- The place of the first such byte.
unfoldable pub index_of : ℕ → List ℕ → Option ℕ
index_of c [] = none
index_of c (x ∷ text) =
    if x == c then some 0 else elim (index_of c text) [ none ↦ none | some i ↦ some (suc i) ]

-- `text.find(c, start)`; none is npos.
unfoldable pub find : ℕ → ℕ → List ℕ → Option ℕ
unfolding index_of
find c start text = elim (index_of c (drop start text)) [ none ↦ none | some i ↦ some (start + i) ]

-- `text.substr(start, count)`
unfoldable pub substr : ℕ → ℕ → List ℕ → Exit (List ℕ)
substr start count text =
    if ltb (length text) start then aborted out_of_range else value (take count (drop start text))

-- `if (!part.empty()) { parts.push_back(part); }`, and the parts behind it.
abbrev pub push : List ℕ → List (List ℕ) → List (List ℕ)
push [] parts = parts
push (x ∷ part) parts = (x ∷ part) ∷ parts

abbrev pub add_part : Exit (List ℕ) → Exit (List (List ℕ)) → Exit (List (List ℕ))
add_part (value part) (value parts) = value (push part parts)
add_part (value part) (error e) = error e
add_part (value part) (aborted x) = aborted x
add_part (error e) parts = error e
add_part (aborted x) parts = aborted x

-- The `do … while (end != npos)`: the second argument of substr is `end`, as in the code.
unfoldable pub split_from : ℕ → ℕ → ℕ → List ℕ → Exit (List (List ℕ))
split_from c zero start text = aborted out_of_fuel
split_from c (suc fuel) start text = elim (find c start text) [
  | none ↦ add_part (substr start npos text) (value [])
  | some end ↦ add_part (substr start end text) (split_from c fuel (end + 1) text)
]

-- Every round but the last passes one byte `c`.
unfoldable pub split_string : ℕ → List ℕ → Exit (List (List ℕ))
unfolding split_from
split_string c [] = value []
split_string c (x ∷ text) = split_from c (length (x ∷ text) + 1) 0 (x ∷ text)
