-- ===== src/Camera/Frames/Image.antt =====
-- vimbax_camera.cpp: Frame::on_frame_ready and Frame::transform, on the bytes of the image. With
-- AllocationMode::kByImage the driver writes into the frame's own data, so `imageData` is that data.
pub mod Samples
use vimbax_ros2_driver.Common.{
  ℕ, ◌+◌, ◌*◌, ◌/◌, ◌%◌, Bool, false, Option, none, some, map_option, List, [], ◌∷◌, ◌++◌, length,
  take,
}
use vimbax_ros2_driver.Camera.{AllocationMode, by_image, by_tl}
use vimbax_ros2_driver.Pixel.{Encoding, get_image_encoding, shift_of}
use vimbax_ros2_driver.Shift.{left_shift16_default, left_shift16_neon}

-- The 16-bit words of a buffer of a little-endian machine, and its last byte if that is odd.
abbrev pub words : List ℕ → List ℕ
words [] = []
words (b ∷ []) = []
words (low ∷ high ∷ bs) = (low + 256 * high) ∷ words bs

abbrev pub odd_byte : List ℕ → List ℕ
odd_byte [] = []
odd_byte (b ∷ []) = b ∷ []
odd_byte (low ∷ high ∷ bs) = odd_byte bs

abbrev pub bytes : List ℕ → List ℕ
bytes [] = []
bytes (w ∷ ws) = w % 256 ∷ w / 256 ∷ bytes ws

-- What the size_t version of left_shift16, which transform calls, is built as: NEON on AArch64, and the
-- plain one elsewhere. (The AVX2 and SSE2 versions take a ssize_t, and nothing calls them.)
pub data Target : Type 0 where
  plain neon : Target

unfoldable pub left_shift16 : Target → List ℕ → List ℕ → ℕ → ℕ → Option (List ℕ)
left_shift16 plain = left_shift16_default
left_shift16 neon = left_shift16_neon

-- A frame's own bytes, and those that the driver filled, with what it says of them.
pub record Filled : Type 0 where
  pub allocation_mode : AllocationMode
  pub pixel_format : ℕ
  pub width : ℕ
  pub height : ℕ
  pub image_data : List ℕ
  pub bytes_of : List ℕ

-- The fields of sensor_msgs/Image that on_frame_ready sets.
pub record ImageMessage : Type 0 where
  pub encoding : Encoding
  pub width : ℕ
  pub height : ℕ
  pub is_bigendian : Bool
  pub bytes_of : List ℕ

-- What `imageData` points to.
abbrev pub source_of : AllocationMode → List ℕ → List ℕ → List ℕ
source_of by_image own image = own
source_of by_tl own image = image

-- The default case: memcpy of `data.size()` bytes.
abbrev pub copied : AllocationMode → List ℕ → List ℕ → List ℕ
copied by_image own image = own
copied by_tl own image = take (length own) image

-- None where left_shift16 does not end.
unfoldable pub transform : Target → Filled → Option (List ℕ)
unfolding left_shift16
transform target f = elim (shift_of f.pixel_format) [
  | some shift ↦
      map_option (λ ws. bytes ws ++ odd_byte f.bytes_of)
        (left_shift16 target (words f.bytes_of)
          (words (source_of f.allocation_mode f.bytes_of f.image_data)) (length f.bytes_of) shift)
  | none ↦ some (copied f.allocation_mode f.bytes_of f.image_data)
]

unfoldable pub on_frame_ready : Target → Filled → Option ImageMessage
on_frame_ready target f =
    map_option
      (λ bs. record {
        encoding = get_image_encoding f.pixel_format;
        width = f.width;
        height = f.height;
        is_bigendian = false;
        bytes_of = bs;
      })
      (transform target f)
