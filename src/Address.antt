-- ===== src/Address.antt =====
-- vimbax_camera.cpp: the parsers of IP and MAC addresses, and the texts of addresses that
-- camera_info_get makes. A text is the list of its bytes. The patterns are matched as std::regex
-- matches them: the alternatives of each repetition in order, the longest first.
pub mod Mac
pub mod Text
pub mod RoundTrip
pub mod Letters
use vimbax_ros2_driver.Common.{
  ℕ, zero, suc, ◌+◌, ◌-◌, ◌*◌, ◌/◌, ◌%◌, ◌^◌, Bool, true, false, ◌&&◌, ◌||◌, not, Option, none,
  some, List, [], ◌∷◌, ◌++◌, Exit, value, aborted, invalid_argument, leb, ltb, ◌==◌, if◌then◌else◌,
  map,
}

-- The value of a group of decimal digits, and the text behind it.
abbrev pub Parse : Type 0
Parse = ℕ × List ℕ

abbrev pub is_digit : ℕ → Bool
is_digit c = leb b'0' c && leb c b'9'

abbrev digit : ℕ → ℕ
digit c = c - b'0'

third_digit : ℕ → List ℕ → List Parse
third_digit n [] = []
third_digit n (c ∷ r) = if is_digit c then (n * 10 + digit c, r) ∷ [] else []

second_digit : ℕ → List ℕ → List Parse
unfolding third_digit
second_digit n [] = []
second_digit n (c ∷ r) =
    if is_digit c then third_digit (n * 10 + digit c) r ++ (n * 10 + digit c, r) ∷ [] else []

-- `[0-9]{1,3}`: the matches at the head of a text, the longest first, each with its `std::stoi`.
unfoldable pub digits : List ℕ → List Parse
unfolding second_digit
digits [] = []
digits (c ∷ r) = if is_digit c then second_digit (digit c) r ++ (digit c, r) ∷ [] else []

-- `.`: any character but a line end.
unfoldable pub any_char : List ℕ → Option (List ℕ)
any_char [] = none
any_char (c ∷ r) = if (c == 10) || (c == 13) then none else some r

-- The first alternative from which the rest of the pattern matches.
unfoldable pub first_match : {A : Type 0} → List Parse → (ℕ → List ℕ → Option A) → Option A
first_match [] k = none
first_match ((n, r) ∷ more) k = elim (k n r) [ some a ↦ some a | none ↦ first_match more k ]

-- A separator and the next group.
abbrev pub next_group : {A : Type 0} → (ℕ → List ℕ → Option A) → List ℕ → Option A
next_group k r = elim (any_char r) [ none ↦ none | some r' ↦ first_match (digits r') k ]

-- `(stoi(m) & 0xFF) << 24 | …`: the groups do not overlap.
abbrev pub ip_of : ℕ → ℕ → ℕ → ℕ → ℕ
ip_of a b c d = a % 256 * 2 ^ 24 + b % 256 * 2 ^ 16 + c % 256 * 2 ^ 8 + d % 256

-- The end of the text.
abbrev pub at_end : {A : Type 0} → A → List ℕ → Option A
at_end a [] = some a
at_end a (c ∷ r) = none

unfoldable pub decode_ip_addr : List ℕ → Option ℕ
unfolding digits any_char first_match
decode_ip_addr text =
    first_match (digits text)
      λ a. next_group λ b. next_group λ c. next_group λ d. at_end (ip_of a b c d)
