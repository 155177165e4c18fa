-- ===== src/Address/Text.antt =====
-- vimbax_camera.cpp: the texts of the addresses in camera_info_get. The bytes of an int64_t are those
-- of a little-endian machine.
use vimbax_ros2_driver.Common.{
  ℕ, ◌+◌, ◌*◌, ◌-◌, ◌/◌, ◌%◌, ◌^◌, List, [], ◌∷◌, ◌++◌, ltb, if◌then◌else◌,
}

-- `std::to_string` of a byte.
unfoldable pub byte_text : ℕ → List ℕ
byte_text n =
    if ltb n 10
    then (b'0' + n) ∷ []
    else if ltb n 100
    then (b'0' + n / 10) ∷ (b'0' + n % 10) ∷ []
    else (b'0' + n / 100) ∷ (b'0' + n / 10 % 10) ∷ (b'0' + n % 10) ∷ []

-- `u8ptr[i]`
abbrev pub byte : ℕ → ℕ → ℕ
byte i n = n / 2 ^ (8 * i) % 256

unfoldable pub ip_text : ℕ → List ℕ
unfolding byte_text
ip_text n =
    byte_text (byte 3 n)
    ++ (b'.'
        ∷ (byte_text (byte 2 n)
            ++ (b'.' ∷ (byte_text (byte 1 n) ++ (b'.' ∷ byte_text (byte 0 n))))))

-- A hexadecimal digit as `std::hex` writes it.
abbrev pub hex_char : ℕ → ℕ
hex_char d = if ltb d 10 then b'0' + d else b'a' + (d - 10)

-- `std::setfill('0') << std::setw(2) << int(b)`
unfoldable pub hex_text : ℕ → List ℕ → List ℕ
hex_text b r = hex_char (b / 16) ∷ hex_char (b % 16) ∷ r

unfoldable pub mac_text : ℕ → List ℕ
unfolding hex_text
mac_text n = hex_text (byte 5 n) (
    b':'
    ∷ hex_text (byte 4 n) (
        b':'
        ∷ hex_text (byte 3 n) (
            b':'
            ∷ hex_text (byte 2 n) (b':' ∷ hex_text (byte 1 n) (b':' ∷ hex_text (byte 0 n) [])))))
