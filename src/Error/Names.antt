-- ===== src/Error/Names.antt =====
-- The texts of vmb_error_to_string tell the codes apart.
use vimbax_ros2_driver.Common.{
  String, ◌≡◌, refl, ◌⊎◌, inl, Option, none, some, List, [], ◌∷◌, All, ℤ, int_eq_iff, str_eq, arith,
  if◌then◌else◌,
}
use vimbax_ros2_driver.Error.{error_texts, text_in, vmb_error_to_string}

-- The code that a table gives to a text.
code_in : List (ℤ × String) → String → Option ℤ
code_in [] s = none
code_in ((c, text) ∷ rest) s = if str_eq text s then some c else code_in rest s

-- The code that a text of `vmb_error_to_string` stands for.
pub code_of_text : String → Option ℤ
unfolding code_in
code_of_text s = code_in error_texts s

-- In a table whose rows can all be found by their texts, a code with a row is found by its text.
text_in-found :
    (whole rows : List (ℤ × String)) (c : ℤ)
    → All (λ (r : ℤ × String). code_in whole r.1 ≡ some r.0) rows
    → (text_in rows c ≡ "VmbErrorCustom") ⊎ (code_in whole (text_in rows c) ≡ some c)
unfolding text_in
text_in-found whole [] c h = inl refl
text_in-found whole ((d, text) ∷ rest) c h =
    ground (arith, int_eq_iff c d, text_in-found whole rest c h.1)

-- Every text but the catch-all names one code: no two known errors are reported alike.
pub code_of_text-vmb_error_to_string :
    (c : ℤ)
    → (vmb_error_to_string c ≡ "VmbErrorCustom") ⊎ (code_of_text (vmb_error_to_string c) ≡ some c)
unfolding vmb_error_to_string code_of_text
code_of_text-vmb_error_to_string c = text_in-found error_texts error_texts c (ground arith)
