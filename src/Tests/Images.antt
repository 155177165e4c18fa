-- ===== src/Tests/Images.antt =====
-- Frames that the node publishes.
use vimbax_ros2_driver.Common.{
  ℕ, ◌+◌, ◌-◌, ◌*◌, ◌^◌, ◌≡◌, refl, false, none, some, map_option, List, [], ◌∷◌, pos, value, arith,
  length, ◌>>=◌, negsuc,
}
use vimbax_ros2_driver.Camera.Frames.Timestamp.{nano_den, timestamp_to_ns}
use vimbax_ros2_driver.Node.Images.{
  warn, missing_frames, Stamp, LoadedInfo, ReadyFrame, Surroundings, Publishing, publish_frames,
  publish_frame, frame_stamp, stamp_of, info_for, split_seconds, publish,
}
use vimbax_ros2_driver.Node.Images.Missing.{sum, publish_frames-missing}
use vimbax_ros2_driver.Node.Images.Stamps.{Says, frame_stamp-exact}
use vimbax_ros2_driver.Camera.{by_tl}
use vimbax_ros2_driver.Pixel.{shift_of}
use vimbax_ros2_driver.Pixel.Formats
use vimbax_ros2_driver.Shift.{
  left_shift16_neon, left_shift16_vector, vector_loop, left_shift16_default, shift_words,
}
use vimbax_ros2_driver.Camera.Frames.Image.{
  Filled, ImageMessage, plain, neon, transform, on_frame_ready,
}
use vimbax_ros2_driver.Common.{zero, suc, replicate, take}
use vimbax_ros2_driver.Tests.Nodes.{node_with}
use vimbax_ros2_driver.Tests.{idle_camera}

abbrev calibrated : LoadedInfo
calibrated = record { width = 640; height = 480; calibration = some 1 }

abbrev camera_time : Surroundings
camera_time = record {
  frame_name = "cam";
  use_ros_time = false;
  now = record { sec = pos 0; nanosec = 0 };
  loaded_info = calibrated;
}

abbrev frame : ℕ → ReadyFrame
frame n = record { frame_id = n; timestamp = 187_500_000 + n; width = 640; height = 480 }

abbrev nothing_yet : Publishing
nothing_yet = record { node = node_with idle_camera; missing = []; published = [] }

-- The frames 6 and 7 are missing, and then 9.
abbrev with_gaps : List (Surroundings × ReadyFrame)
with_gaps = (camera_time, frame 5) ∷ (camera_time, frame 8) ∷ (camera_time, frame 10) ∷ []

gaps_counted :
    (publish_frames (some 125_000_000) ((camera_time, frame 4) ∷ with_gaps) nothing_yet).1.missing
    ≡ 1 ∷ 2 ∷ []
unfolding publish_frames ◌>>=◌ publish_frame publish split_seconds timestamp_to_ns warn
    missing_frames
gaps_counted = refl

-- The stamp of a camera's clock that is past 2038.
late_stamp : stamp_of (2 ^ 31 * nano_den + 5) ≡ record { sec = negsuc (2 ^ 31 - 1); nanosec = 5 }
unfolding stamp_of split_seconds
late_stamp = refl

other_size : (info_for calibrated (record (frame 1) { width = 320 })).calibration ≡ none
unfolding info_for
other_size = refl

publish_frames-missing_example :
    let (r, s) =
      publish_frames (some 125_000_000) ((camera_time, frame 4) ∷ with_gaps) nothing_yet in
    (r ≡ value tt) × (length s.published ≡ 0 + 4) × (sum s.missing + 3 + 4 ≡ 0 + 10)
publish_frames-missing_example =
    publish_frames-missing (some 125_000_000) camera_time (frame 4) with_gaps nothing_yet
      (λ e. ground arith) refl
      (omega arith, omega arith, (omega arith, omega arith, (omega arith, omega arith, tt)))

frame_stamp-exact_example :
    (s : Stamp) × (frame_stamp (some 125_000_000) camera_time (frame 1) ≡ value s)
    × Says (187_500_001 * 8) s
frame_stamp-exact_example =
    frame_stamp-exact 125_000_000 8 camera_time (frame 1) refl refl (omega arith)

abbrev repeated : ℕ → List ℕ
repeated zero = []
repeated (suc n) = 0xab ∷ 0x0f ∷ repeated n

-- Sixteen samples of 12 bits in a buffer of the driver.
abbrev twelve_bits : Filled
twelve_bits = record {
  allocation_mode = by_tl;
  pixel_format = Formats.mono12;
  width = 16;
  height = 1;
  image_data = repeated 16;
  bytes_of = replicate 32 0;
}

first_word : map_option (take 2) (transform neon twelve_bits) ≡ some (0xb0 ∷ 0xfa ∷ [])
unfolding transform shift_of left_shift16_neon left_shift16_vector vector_loop left_shift16_default
    shift_words
first_word = refl

-- Colours are copied as they are.
copied_bytes :
    map_option
      (λ (m : ImageMessage). m.bytes_of)
      (on_frame_ready plain (record twelve_bits { pixel_format = Formats.rgb8 }))
    ≡ some (repeated 16)
unfolding on_frame_ready transform shift_of
copied_bytes = refl
