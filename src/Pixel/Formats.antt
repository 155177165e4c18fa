-- ===== src/Pixel/Formats.antt =====
-- VmbCommonTypes.h: the pixel formats that the driver names, each the sum of its kind, the bits that
-- a pixel occupies and a number.
use vimbax_ros2_driver.Common.{ℕ, ◌+◌, ◌*◌, ◌^◌}

-- `VmbPixelMono | VmbPixelOccupy<bits>Bit | id` and the same for colour.
abbrev mono_format : ℕ → ℕ → ℕ
mono_format bits id = 0x0100_0000 + bits * 2 ^ 16 + id

abbrev color_format : ℕ → ℕ → ℕ
color_format bits id = 0x0200_0000 + bits * 2 ^ 16 + id

abbrev pub mono8 : ℕ
mono8 = mono_format 8 0x0001

abbrev pub mono12 : ℕ
mono12 = mono_format 16 0x0005

abbrev pub mono16 : ℕ
mono16 = mono_format 16 0x0007

abbrev pub bayer_gr8 : ℕ
bayer_gr8 = mono_format 8 0x0008

abbrev pub bayer_rg8 : ℕ
bayer_rg8 = mono_format 8 0x0009

abbrev pub bayer_gb8 : ℕ
bayer_gb8 = mono_format 8 0x000A

abbrev pub bayer_bg8 : ℕ
bayer_bg8 = mono_format 8 0x000B

abbrev pub bayer_gr10 : ℕ
bayer_gr10 = mono_format 16 0x000C

abbrev pub bayer_rg10 : ℕ
bayer_rg10 = mono_format 16 0x000D

abbrev pub bayer_gb10 : ℕ
bayer_gb10 = mono_format 16 0x000E

abbrev pub bayer_bg10 : ℕ
bayer_bg10 = mono_format 16 0x000F

abbrev pub bayer_gr12 : ℕ
bayer_gr12 = mono_format 16 0x0010

abbrev pub bayer_rg12 : ℕ
bayer_rg12 = mono_format 16 0x0011

abbrev pub bayer_gb12 : ℕ
bayer_gb12 = mono_format 16 0x0012

abbrev pub bayer_bg12 : ℕ
bayer_bg12 = mono_format 16 0x0013

abbrev pub bayer_gr16 : ℕ
bayer_gr16 = mono_format 16 0x002E

abbrev pub bayer_rg16 : ℕ
bayer_rg16 = mono_format 16 0x002F

abbrev pub bayer_gb16 : ℕ
bayer_gb16 = mono_format 16 0x0030

abbrev pub bayer_bg16 : ℕ
bayer_bg16 = mono_format 16 0x0031

abbrev pub rgb8 : ℕ
rgb8 = color_format 24 0x0014

abbrev pub bgr8 : ℕ
bgr8 = color_format 24 0x0015

abbrev pub yuv422_8 : ℕ
yuv422_8 = color_format 16 0x0032

abbrev pub ycbcr422_8 : ℕ
ycbcr422_8 = color_format 16 0x003B

abbrev pub ycbcr422_8_cbycry : ℕ
ycbcr422_8_cbycry = color_format 16 0x0043

abbrev pub mono10 : ℕ
mono10 = mono_format 16 0x0003

abbrev pub mono14 : ℕ
mono14 = mono_format 16 0x0025

abbrev pub rgb16 : ℕ
rgb16 = color_format 48 0x0033

abbrev pub bgr16 : ℕ
bgr16 = color_format 48 0x004B

abbrev pub argb8 : ℕ
argb8 = color_format 32 0x0016

abbrev pub bgra8 : ℕ
bgra8 = color_format 32 0x0017

abbrev pub rgba16 : ℕ
rgba16 = color_format 64 0x0064

abbrev pub bgra16 : ℕ
bgra16 = color_format 64 0x0051

abbrev pub yuv422 : ℕ
yuv422 = color_format 16 0x001F

abbrev pub ycbcr601_422_8 : ℕ
ycbcr601_422_8 = color_format 16 0x003E

abbrev pub ycbcr709_422_8 : ℕ
ycbcr709_422_8 = color_format 16 0x0041

abbrev pub ycbcr601_422_8_cbycry : ℕ
ycbcr601_422_8_cbycry = color_format 16 0x0044

abbrev pub ycbcr709_422_8_cbycry : ℕ
ycbcr709_422_8_cbycry = color_format 16 0x0045
