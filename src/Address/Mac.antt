-- ===== src/Address/Mac.antt =====
-- vimbax_camera.cpp: decode_mac_addr.
use vimbax_ros2_driver.Common.{
  ℕ, zero, suc, ◌+◌, ◌-◌, ◌*◌, ◌%◌, Bool, ◌&&◌, ◌||◌, Option, none, some, List, [], ◌∷◌, Exit,
  value, error, aborted, invalid_argument, leb, ◌==◌, if◌then◌else◌,
}

abbrev between : ℕ → ℕ → ℕ → Bool
between lo hi c = leb lo c && leb c hi

-- `[0-9a-zA-Z]`
abbrev pub is_alnum : ℕ → Bool
is_alnum c = between b'0' b'9' c || between b'a' b'z' c || between b'A' b'Z' c

-- The digit that base 16 reads.
abbrev pub hex_digit : ℕ → Option ℕ
hex_digit c =
    if between b'0' b'9' c
    then some (c - b'0')
    else if between b'a' b'f' c
    then some (c - b'a' + 10)
    else if between b'A' b'F' c
    then some (c - b'A' + 10)
    else none

-- Two characters that the pattern has matched.
abbrev pub Pair : Type 0
Pair = ℕ × ℕ

-- `std::stoi(m, 0, 16)` on two letters or digits: it reads as far as the digits go, and throws if
-- the first is none.
unfoldable pub stoi16 : Pair → Exit ℕ
stoi16 (a, b) = elim (hex_digit a) [
  | none ↦ aborted invalid_argument
  | some x ↦ elim (hex_digit b) [ none ↦ value x | some y ↦ value (x * 16 + y) ]
]

-- `[:-]?`: with the separator if there is one, and else without.
unfoldable pub optional_sep : {A : Type 0} → (List ℕ → Option A) → List ℕ → Option A
optional_sep k [] = k []
optional_sep k (c ∷ r) =
    if (c == b':') || (c == b'-')
    then elim (k r) [ some a ↦ some a | none ↦ k (c ∷ r) ]
    else k (c ∷ r)

-- `([0-9a-zA-Z]{2})`
unfoldable pub pair_then : {A : Type 0} → (Pair → List ℕ → Option A) → List ℕ → Option A
pair_then k [] = none
pair_then k (a ∷ []) = none
pair_then k (a ∷ b ∷ r) = if is_alnum a && is_alnum b then k (a, b) r else none

-- The groups of the whole pattern, from the one with `n` more behind it.
unfoldable pub pairs : ℕ → List ℕ → Option (List Pair)
unfolding pair_then optional_sep
pairs zero = pair_then (λ p r. elim r [ [] ↦ some (p ∷ []) | c ∷ r' ↦ none ])
pairs (suc n) =
    pair_then (λ p. optional_sep (λ r. elim (pairs n r) [ none ↦ none | some ps ↦ some (p ∷ ps) ]))

-- `uint64_t(stoi(m) & 0xFF) << 40 | …`: each group is one byte, the first the highest.
unfoldable pub fold_bytes : ℕ → List Pair → Exit ℕ
fold_bytes acc [] = value acc
fold_bytes acc (p ∷ ps) = elim (stoi16 p) [
  | value b ↦ fold_bytes (acc * 256 + b % 256) ps
  | error e ↦ Exit.error e
  | aborted x ↦ aborted x
]

-- None where the pattern does not match.
unfoldable pub decode_mac_addr : List ℕ → Exit (Option ℕ)
unfolding pairs fold_bytes
decode_mac_addr text = elim (pairs 5 text) [
  | none ↦ value none
  | some ps ↦ elim (fold_bytes 0 ps) [
    | value n ↦ value (some n)
    | error e ↦ Exit.error e
    | aborted x ↦ aborted x
  ]
]
