-- ===== src/Pixel.antt =====
-- vimbax_camera.cpp: which pixel formats can be streamed, the image encoding that a format is
-- published under, and the shift that brings its samples to the top of their words.
pub mod Formats
pub mod Encodings
pub mod Samples
use vimbax_ros2_driver.Common.{
  ℕ, Bool, Option, none, some, List, [], ◌∷◌, elem, ◌==◌, if◌then◌else◌,
}

-- The constants of sensor_msgs/image_encodings that get_image_encoding returns.
pub data Encoding : Type 0 where
  mono8 mono16 bayer_grbg8 bayer_rggb8 bayer_gbrg8 bayer_bggr8 bayer_grbg16 bayer_rggb16
        bayer_gbrg16 bayer_bggr16 rgb8 bgr8 rgb16 bgr16 rgba8 bgra8 rgba16 bgra16 yuv422 yuv422_yuy2
        type_8uc1 :
      Encoding

-- The cases of is_valid_pixel_format.
abbrev pub valid_formats : List ℕ
valid_formats =
    Formats.mono8 ∷ Formats.mono12 ∷ Formats.mono16 ∷ Formats.bayer_gr8 ∷ Formats.bayer_rg8
    ∷ Formats.bayer_gb8 ∷ Formats.bayer_bg8 ∷ Formats.bayer_gr10 ∷ Formats.bayer_rg10
    ∷ Formats.bayer_gb10 ∷ Formats.bayer_bg10 ∷ Formats.bayer_gr12 ∷ Formats.bayer_rg12
    ∷ Formats.bayer_gb12 ∷ Formats.bayer_bg12 ∷ Formats.bayer_gr16 ∷ Formats.bayer_rg16
    ∷ Formats.bayer_gb16 ∷ Formats.bayer_bg16 ∷ Formats.rgb8 ∷ Formats.bgr8 ∷ Formats.yuv422_8
    ∷ Formats.ycbcr422_8 ∷ Formats.ycbcr422_8_cbycry ∷ []

unfoldable pub is_valid_pixel_format : ℕ → Bool
is_valid_pixel_format format = elem format valid_formats

-- The first row with the format, or the default of the `switch`.
abbrev pub row_of {ℓ} : {A : Type ℓ} → List (ℕ × A) → A → ℕ → A
row_of [] default format = default
row_of ((f, a) ∷ rows) default format = if format == f then a else row_of rows default format

-- The cases of get_image_encoding.
abbrev pub encodings : List (ℕ × Encoding)
encodings =
    (Formats.mono8, mono8)
    ∷ (Formats.mono10, mono16)
    ∷ (Formats.mono12, mono16)
    ∷ (Formats.mono14, mono16)
    ∷ (Formats.mono16, mono16)
    ∷ (Formats.bayer_gr8, bayer_grbg8)
    ∷ (Formats.bayer_rg8, bayer_rggb8)
    ∷ (Formats.bayer_gb8, bayer_gbrg8)
    ∷ (Formats.bayer_bg8, bayer_bggr8)
    ∷ (Formats.bayer_gr10, bayer_grbg16)
    ∷ (Formats.bayer_rg10, bayer_rggb16)
    ∷ (Formats.bayer_gb10, bayer_gbrg16)
    ∷ (Formats.bayer_bg10, bayer_bggr16)
    ∷ (Formats.bayer_gr12, bayer_grbg16)
    ∷ (Formats.bayer_rg12, bayer_rggb16)
    ∷ (Formats.bayer_gb12, bayer_gbrg16)
    ∷ (Formats.bayer_bg12, bayer_bggr16)
    ∷ (Formats.bayer_gr16, bayer_grbg16)
    ∷ (Formats.bayer_rg16, bayer_rggb16)
    ∷ (Formats.bayer_gb16, bayer_gbrg16)
    ∷ (Formats.bayer_bg16, bayer_bggr16)
    ∷ (Formats.rgb8, rgb8)
    ∷ (Formats.bgr8, bgr8)
    ∷ (Formats.rgb16, rgb16)
    ∷ (Formats.bgr16, bgr16)
    ∷ (Formats.argb8, rgba8)
    ∷ (Formats.bgra8, bgra8)
    ∷ (Formats.rgba16, rgba16)
    ∷ (Formats.bgra16, bgra16)
    ∷ (Formats.yuv422, yuv422)
    ∷ (Formats.yuv422_8, yuv422_yuy2)
    ∷ (Formats.ycbcr422_8, yuv422_yuy2)
    ∷ (Formats.ycbcr601_422_8, yuv422_yuy2)
    ∷ (Formats.ycbcr709_422_8, yuv422_yuy2)
    ∷ (Formats.ycbcr422_8_cbycry, yuv422)
    ∷ (Formats.ycbcr601_422_8_cbycry, yuv422_yuy2)
    ∷ (Formats.ycbcr709_422_8_cbycry, yuv422_yuy2)
    ∷ []

unfoldable pub get_image_encoding : ℕ → Encoding
get_image_encoding format = row_of encodings type_8uc1 format

-- The cases of transform that shift, each with its shift.
abbrev pub shifts : List (ℕ × Option ℕ)
shifts =
    (Formats.mono10, some 6)
    ∷ (Formats.bayer_bg10, some 6)
    ∷ (Formats.bayer_gb10, some 6)
    ∷ (Formats.bayer_gr10, some 6)
    ∷ (Formats.bayer_rg10, some 6)
    ∷ (Formats.mono12, some 4)
    ∷ (Formats.bayer_bg12, some 4)
    ∷ (Formats.bayer_gb12, some 4)
    ∷ (Formats.bayer_gr12, some 4)
    ∷ (Formats.bayer_rg12, some 4)
    ∷ (Formats.mono14, some 2)
    ∷ []

unfoldable pub shift_of : ℕ → Option ℕ
shift_of format = row_of shifts none format
