-- ===== src/Pixel/Encodings.antt =====
-- The encoding of every format that can be streamed.
use vimbax_ros2_driver.Common.{
  ℕ, ◌/◌, ◌%◌, ◌^◌, ◌≡◌, ◌≢◌, true, List, [], ◌∷◌, elem, All, arith, ◌==◌, ==_iff, Bool-cases, inl,
  inr,
}
use vimbax_ros2_driver.Pixel.{
  Encoding, mono8, mono16, bayer_grbg8, bayer_rggb8, bayer_gbrg8, bayer_bggr8, bayer_grbg16,
  bayer_rggb16, bayer_gbrg16, bayer_bggr16, rgb8, bgr8, yuv422, yuv422_yuy2, type_8uc1,
  is_valid_pixel_format, valid_formats, get_image_encoding,
}

-- What sensor_msgs/image_encodings documents: the bits of a pixel, channels times depth.
pub record EncodingLaws (bits : Encoding → ℕ) : Type 0 where
  pub mono8_bits : bits mono8 ≡ 8
  pub mono16_bits : bits mono16 ≡ 16
  pub bayer_grbg8_bits : bits bayer_grbg8 ≡ 8
  pub bayer_rggb8_bits : bits bayer_rggb8 ≡ 8
  pub bayer_gbrg8_bits : bits bayer_gbrg8 ≡ 8
  pub bayer_bggr8_bits : bits bayer_bggr8 ≡ 8
  pub bayer_grbg16_bits : bits bayer_grbg16 ≡ 16
  pub bayer_rggb16_bits : bits bayer_rggb16 ≡ 16
  pub bayer_gbrg16_bits : bits bayer_gbrg16 ≡ 16
  pub bayer_bggr16_bits : bits bayer_bggr16 ≡ 16
  pub rgb8_bits : bits rgb8 ≡ 24
  pub bgr8_bits : bits bgr8 ≡ 24
  pub yuv422_bits : bits yuv422 ≡ 16
  pub yuv422_yuy2_bits : bits yuv422_yuy2 ≡ 16

pub All-elem : (P : ℕ → Type 0) (xs : List ℕ) (a : ℕ) → All P xs → elem a xs ≡ true → P a
All-elem P [] a h e = cc
All-elem P (x ∷ xs) a h e = elim (Bool-cases (a == x)) [
  | inl same ↦ rw ((==_iff a x).0 same) h.0
  | inr differs ↦ All-elem P xs a h.1 (rw differs at e)
]

-- The encoding is a named one, and its pixel is as wide as the format says.
abbrev pub Agrees : (Encoding → ℕ) → ℕ → Type 0
Agrees bits f =
    (get_image_encoding f ≢ type_8uc1) × (bits (get_image_encoding f) ≡ f / 2 ^ 16 % 256)

-- If the encodings have the widths that sensor_msgs documents, every pixel format that
-- start_streaming accepts is published under an encoding of its own, not the default, whose pixels
-- have as many bits as the format's, on which the image's step is computed.
pub get_image_encoding-Agrees :
    (bits : Encoding → ℕ)
    → EncodingLaws bits
    → (f : ℕ) → is_valid_pixel_format f ≡ true
    → Agrees bits f
unfolding is_valid_pixel_format get_image_encoding
get_image_encoding-Agrees bits laws f e = All-elem (Agrees bits) valid_formats f (ground arith) e
