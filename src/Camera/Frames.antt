-- ===== src/Camera/Frames.antt =====
-- vimbax_camera.cpp: Frame::create. Allocation does not fail, and no int64_t product overflows.
pub mod Align
pub mod Timestamp
pub mod Image
use vimbax_ros2_driver.Common.{
  ℕ, ◌+◌, ◌-◌, ◌*◌, ◌/◌, ◌%◌, ◌^◌, Bool, Option, none, some, ℤ, Act, pure, attempt, give, ◌>>=◌,
  ◌>>◌, ltb, ◌==◌, if◌then◌else◌, bit_and, to_u64, to_u32, mul_div8, mul, true, false,
}
use vimbax_ros2_driver.Vmbc.{Api, VmbFrame}
use vimbax_ros2_driver.Vmbc.Features.{call}
use vimbax_ros2_driver.Camera.{Camera, Frame, AllocationMode, by_image, by_tl, remote_device}
use vimbax_ros2_driver.Camera.Features.{feature_int_get}
use vimbax_ros2_driver.Camera.Enums.{get_pixel_format}

-- The lambda `aligned_size`, on size_t.
unfoldable pub aligned_size : ℕ → ℕ → ℕ
aligned_size size alignment =
    if ltb 1 alignment
    then (let mask = alignment - 1 in
        let offset = bit_and size mask in
        let offset_to_next = bit_and (alignment - offset) mask in (size + offset_to_next) % 2 ^ 64)
    else size

-- `(*pixel_format >> 16) & 0xFF`
abbrev pub bits_per_pixel : ℕ → ℕ
bits_per_pixel format = format / 2 ^ 16 % 256

-- With the image's own size the library writes into the image; otherwise it brings its own buffer.
unfoldable pub make_frame : ℕ → ℤ → ℕ → ℕ → ℕ → Frame
make_frame context line real_size size aligned =
    if real_size == aligned
    then record {
      vmb_frame = record { context = context; buffer = true; buffer_size = size };
      allocation_mode = by_image;
      callback = none;
      size = size;
      step = to_u32 line;
    }
    else record {
      vmb_frame = record { context = context; buffer = false; buffer_size = size };
      allocation_mode = by_tl;
      callback = none;
      size = real_size;
      step = to_u32 line;
    }

module _ (api : Api) where
  unfoldable pub create : Camera → ℕ → ℕ → ℕ → Act api.Dev Frame
  unfolding aligned_size make_frame
  create c context size alignment = do
    format ← get_pixel_format api c
    width_res ← attempt (feature_int_get api c "Width" remote_device)
    height_res ← attempt (feature_int_get api c "Height" remote_device)
    width ← give width_res
    height ← give height_res
    let line = mul_div8 width (bits_per_pixel format)
    let real_size = to_u64 (mul height line)
    let frame = make_frame context line real_size size (aligned_size size alignment)
    call (api.vmb_frame_announce c.camera_handle frame.vmb_frame)
    pure frame
