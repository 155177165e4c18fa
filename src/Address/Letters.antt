-- ===== src/Address/Letters.antt =====
-- The letters that the pattern of decode_mac_addr admits and base 16 does not.
use vimbax_ros2_driver.Common.{
  ℕ, ◌+◌, ◌*◌, ◌%◌, ◌≡◌, Bool, true, false, none, some, List, [], ◌∷◌, value, aborted,
  invalid_argument, arith, Option-cases, inl, inr,
}
use vimbax_ros2_driver.Address.Mac.{Pair, hex_digit, stoi16, pairs, fold_bytes, decode_mac_addr}

-- Whether one of the groups starts with such a letter.
abbrev pub has_letter : List Pair → Bool
has_letter [] = false
has_letter (p ∷ ps) = elim (hex_digit p.0) [ none ↦ true | some x ↦ has_letter ps ]

stoi16-throws : (p : Pair) → hex_digit p.0 ≡ none → stoi16 p ≡ aborted invalid_argument
unfolding stoi16
stoi16-throws (a, b) e = ground arith

stoi16-value : (p : Pair) (x : ℕ) → hex_digit p.0 ≡ some x → (n : ℕ) × (stoi16 p ≡ value n)
unfolding stoi16
stoi16-value (a, b) x e = elim (Option-cases (hex_digit b)) [
  | inl n ↦ (x, ground arith)
  | inr (y, s) ↦ (x * 16 + y, ground arith)
]

fold_bytes-throws :
    (acc : ℕ) (ps : List Pair) → has_letter ps ≡ true → fold_bytes acc ps ≡ aborted invalid_argument
unfolding fold_bytes
fold_bytes-throws acc [] h = ground arith
fold_bytes-throws acc (p ∷ ps) h = elim (Option-cases (hex_digit p.0)) [
  | inl e ↦ ground (arith, stoi16-throws p e)
  | inr (x, e) ↦
      let v : (n : ℕ) × (stoi16 p ≡ value n) = stoi16-value p x e in
      ground (arith, v.1, fold_bytes-throws (acc * 256 + v.0 % 256) ps)
]

-- On a text that the pattern matches, decode_mac_addr throws std::invalid_argument if one of the
-- groups starts with a letter beyond f.
pub decode_mac_addr-throws :
    (text : List ℕ) (ps : List Pair)
    → pairs 5 text ≡ some ps
    → has_letter ps ≡ true
    → decode_mac_addr text ≡ aborted invalid_argument
unfolding decode_mac_addr
decode_mac_addr-throws text ps e h = simp (decode_mac_addr, e, fold_bytes-throws 0 ps h)
