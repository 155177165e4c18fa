-- ===== src/Address/RoundTrip.antt =====
-- An address that camera_info_get prints is read back by the parser that opens cameras by address.
use vimbax_ros2_driver.Common.{
  ℕ, suc, ◌+◌, ◌*◌, ◌/◌, ◌%◌, ◌^◌, ◌<◌, ◌≡◌, refl, ap, Bool, true, not, Option, some, List, [], ◌∷◌,
  ◌++◌, value, arith,
}
use vimbax_ros2_driver.Address.{is_digit, digits, first_match, ip_of, decode_ip_addr}
use vimbax_ros2_driver.Address.Text.{byte, byte_text, ip_text, hex_char, hex_text, mac_text}
use vimbax_ros2_driver.Address.Mac.{
  is_alnum, hex_digit, stoi16, pair_then, pairs, fold_bytes, decode_mac_addr,
}
use mathlib.Core.List.{append-nil}

-- No digit at the head.
abbrev stops : List ℕ → Bool
stops [] = true
stops (c ∷ r) = not (is_digit c)

-- The longest match of a printed byte is the byte.
first_match-byte_text :
    {A : Type 0} (n : ℕ) (r : List ℕ) (k : ℕ → List ℕ → Option A) (a : A)
    → n < 256
    → stops r ≡ true
    → k n r ≡ some a
    → first_match (digits (byte_text n ++ r)) k ≡ some a
unfolding first_match digits byte_text
first_match-byte_text n r k a h s e = ground arith

ip_of-byte : (n : ℕ) → n < 2 ^ 32 → ip_of (byte 3 n) (byte 2 n) (byte 1 n) (byte 0 n) ≡ n
ip_of-byte n h = omega arith

-- decode_ip_addr reads every 32-bit address back from the text that camera_info_get shows for it.
pub decode_ip_addr-ip_text : (n : ℕ) → n < 2 ^ 32 → decode_ip_addr (ip_text n) ≡ some n
unfolding decode_ip_addr ip_text
decode_ip_addr-ip_text n h = first_match-byte_text (byte 3 n) _ _ n (omega arith) refl (
    first_match-byte_text (byte 2 n) _ _ n (omega arith) refl (
      first_match-byte_text (byte 1 n) _ _ n (omega arith) refl (
        rw (← append-nil (byte_text (byte 0 n)))
          (first_match-byte_text (byte 0 n) [] _ n (omega arith) refl (ap some (ip_of-byte n h))))))

-- A printed byte is two of the pattern's characters, and base 16 reads it back.
abbrev hex_pair : ℕ → ℕ × ℕ
hex_pair b = (hex_char (b / 16), hex_char (b % 16))

is_alnum-hex_char : (d : ℕ) → d < 16 → is_alnum (hex_char d) ≡ true
is_alnum-hex_char d h = ground arith

hex_digit-hex_char : (d : ℕ) → d < 16 → hex_digit (hex_char d) ≡ some d
hex_digit-hex_char d h = ground arith

stoi16-hex_pair : (b : ℕ) → b < 256 → stoi16 (hex_pair b) ≡ value b
unfolding stoi16
stoi16-hex_pair b h = ground (arith, hex_digit-hex_char (b / 16), hex_digit-hex_char (b % 16))

pair_then-hex_text :
    {A : Type 0} (b : ℕ) (r : List ℕ) (k : ℕ × ℕ → List ℕ → Option A)
    → b < 256
    → pair_then k (hex_text b r) ≡ k (hex_pair b) r
unfolding pair_then hex_text
pair_then-hex_text b r k h =
    rw (is_alnum-hex_char (b / 16) (omega arith), is_alnum-hex_char (b % 16) (omega arith)) refl

pairs-hex_text :
    (n b : ℕ) (r : List ℕ) (ps : List (ℕ × ℕ))
    → b < 256
    → pairs n r ≡ some ps
    → pairs (suc n) (hex_text b (b':' ∷ r)) ≡ some (hex_pair b ∷ ps)
unfolding pairs
pairs-hex_text n b r ps h e = rw (pair_then-hex_text b (b':' ∷ r) _ h) (simp e)

pairs_last : (b : ℕ) → b < 256 → pairs 0 (hex_text b []) ≡ some (hex_pair b ∷ [])
unfolding pairs
pairs_last b h = rw (pair_then-hex_text b [] _ h) refl

-- The groups of a printed address.
abbrev six : ℕ → List (ℕ × ℕ)
six n =
    hex_pair (byte 5 n)
    ∷ hex_pair (byte 4 n)
    ∷ hex_pair (byte 3 n)
    ∷ hex_pair (byte 2 n)
    ∷ hex_pair (byte 1 n)
    ∷ hex_pair (byte 0 n)
    ∷ []

pairs-mac_text : (n : ℕ) → pairs 5 (mac_text n) ≡ some (six n)
unfolding mac_text
pairs-mac_text n = pairs-hex_text 4 (byte 5 n) _ _ (omega arith) (
    pairs-hex_text 3 (byte 4 n) _ _ (omega arith) (
      pairs-hex_text 2 (byte 3 n) _ _ (omega arith) (
        pairs-hex_text 1 (byte 2 n) _ _ (omega arith)
          (pairs-hex_text 0 (byte 1 n) _ _ (omega arith) (pairs_last (byte 0 n) (omega arith))))))

fold_bytes-hex_pair :
    (acc b : ℕ) (ps : List (ℕ × ℕ))
    → b < 256
    → fold_bytes acc (hex_pair b ∷ ps) ≡ fold_bytes (acc * 256 + b) ps
unfolding fold_bytes
fold_bytes-hex_pair acc b ps h =
    rw (fold_bytes, stoi16-hex_pair b h)
      (ap (λ (k : ℕ). fold_bytes (acc * 256 + k) ps) (omega arith))

-- The six bytes of a 48-bit number, the highest first.
fold_bytes-six : (n : ℕ) → n < 2 ^ 48 → fold_bytes 0 (six n) ≡ value n
unfolding fold_bytes
fold_bytes-six n h =
    rw
      (
        fold_bytes-hex_pair 0 (byte 5 n) _ (omega arith),
        fold_bytes-hex_pair _ (byte 4 n) _ (omega arith),
        fold_bytes-hex_pair _ (byte 3 n) _ (omega arith),
        fold_bytes-hex_pair _ (byte 2 n) _ (omega arith),
        fold_bytes-hex_pair _ (byte 1 n) _ (omega arith),
        fold_bytes-hex_pair _ (byte 0 n) _ (omega arith),
      )
      (ap value (omega arith))

-- Every 48-bit address likewise, by decode_mac_addr.
pub decode_mac_addr-mac_text : (n : ℕ) → n < 2 ^ 48 → decode_mac_addr (mac_text n) ≡ value (some n)
unfolding decode_mac_addr
decode_mac_addr-mac_text n h = rw (decode_mac_addr, pairs-mac_text n, fold_bytes-six n h) refl
