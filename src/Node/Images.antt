-- ===== src/Node/Images.antt =====
-- vimbax_camera_node.cpp: the frame callback of start_streaming, as it handles one frame after the
-- other: the frames that it counts as missing, the stamp, and what it publishes. That the frame goes
-- back to the driver is in Camera/Queue.antt.
pub mod Missing
pub mod Stamps
use vimbax_ros2_driver.Common.{
  ℕ, ◌+◌, ◌-◌, ◌/◌, ◌%◌, ◌^◌, String, Bool, true, false, Option, none, some, List, [], ◌∷◌, ℤ, pos,
  negsuc, Exit, value, error, aborted, Act, to_u32, ltb, ◌==◌, ◌||◌, not, if◌then◌else◌, ◌>>=◌,
  ◌>>◌, pure,
}
use vimbax_ros2_driver.Camera.Frames.Timestamp.{timestamp_to_ns, nano_den}
use vimbax_ros2_driver.Node.{Node}

-- builtin_interfaces/Time
pub record Stamp : Type 0 where
  pub sec : ℤ
  pub nanosec : ℕ

-- `std::chrono::nanoseconds{…}`: uint64_t to int64_t.
abbrev pub to_i64 : ℕ → ℤ
to_i64 n = if ltb n (2 ^ 63) then pos n else negsuc (2 ^ 64 - 1 - n)

-- `int32_t(…)`
abbrev pub to_i32 : ℤ → ℤ
to_i32 z = if ltb (to_u32 z) (2 ^ 31) then pos (to_u32 z) else negsuc (2 ^ 32 - 1 - to_u32 z)

-- The whole seconds below the time, and what is left. The product of floor does not overflow.
unfoldable pub split_seconds : ℤ → ℤ × ℕ
split_seconds (pos n) = (pos (n / nano_den), n % nano_den)
split_seconds (negsuc n) = (negsuc (n / nano_den), nano_den - 1 - n % nano_den)

unfoldable pub stamp_of : ℕ → Stamp
stamp_of timestamp =
    let (seconds, nanoseconds) = split_seconds (to_i64 timestamp) in
    record { sec = to_i32 seconds; nanosec = nanoseconds }

-- sensor_msgs/CameraInfo: its size, and the number of the rest.
pub record LoadedInfo : Type 0 where
  pub width : ℕ
  pub height : ℕ
  pub calibration : Option ℕ

-- What the callback reads of a frame.
pub record ReadyFrame : Type 0 where
  pub frame_id : ℕ
  pub timestamp : ℕ
  pub width : ℕ
  pub height : ℕ

-- What it reads of ROS meanwhile: two parameters, the clock and the loaded info.
pub record Surroundings : Type 0 where
  pub frame_name : String
  pub use_ros_time : Bool
  pub now : Stamp
  pub loaded_info : LoadedInfo

-- One message of the publisher: the image's and the info's header are the same.
pub record Image : Type 0 where
  pub frame_name : String
  pub stamp : Stamp
  pub width : ℕ
  pub height : ℕ
  pub info : LoadedInfo

-- The node, the warnings of missing frames and the images, the last one first.
pub record Publishing : Type 0 where
  pub node : Node
  pub missing : List ℕ
  pub published : List Image

-- `diff - 1` on uint64_t, where `diff > 1`.
unfoldable pub missing_frames : Option ℕ → ℕ → List ℕ
missing_frames none frame_id = []
missing_frames (some last) frame_id =
    let diff = (frame_id + 2 ^ 64 - last) % 2 ^ 64 in if ltb 1 diff then (diff - 1) ∷ [] else []

unfoldable pub warn : List ℕ → List ℕ → List ℕ
warn [] log = log
warn (n ∷ ns) log = n ∷ log

unfoldable pub info_for : LoadedInfo → ReadyFrame → LoadedInfo
info_for loaded_info frame =
    if not (loaded_info.width == frame.width) || not (loaded_info.height == frame.height)
    then record { width = frame.width; height = frame.height; calibration = none }
    else loaded_info

unfoldable pub frame_stamp : Option ℕ → Surroundings → ReadyFrame → Exit Stamp
frame_stamp frequency ros frame =
    if ros.use_ros_time then value ros.now else elim (timestamp_to_ns frequency frame.timestamp) [
      | value ns ↦ value (stamp_of ns)
      | error e ↦ error e
      | aborted x ↦ aborted x
    ]

unfoldable pub count_frame : ReadyFrame → Publishing → Publishing
count_frame frame s = record s {
  node = record s.node { last_frame_id = some frame.frame_id };
  missing = warn (missing_frames s.node.last_frame_id frame.frame_id) s.missing;
}

unfoldable pub publish : Surroundings → ReadyFrame → Exit Stamp → Act Publishing (Unit {0})
publish ros frame (value stamp) s =
    let image : Image = record {
      frame_name = ros.frame_name;
      stamp = stamp;
      width = frame.width;
      height = frame.height;
      info = info_for ros.loaded_info frame;
    } in
    (value tt, record s { published = image ∷ s.published })
publish ros frame (error e) s = (error e, s)
publish ros frame (aborted x) s = (aborted x, s)

unfoldable pub publish_frame : Option ℕ → Surroundings → ReadyFrame → Act Publishing (Unit {0})
unfolding count_frame frame_stamp
publish_frame frequency ros frame s =
    publish ros frame (frame_stamp frequency ros frame) (count_frame frame s)

-- The frames that the processing thread takes, each with what surrounds it.
unfoldable pub publish_frames :
    Option ℕ → List (Surroundings × ReadyFrame) → Act Publishing (Unit {0})
publish_frames frequency [] = pure tt
publish_frames frequency ((ros, frame) ∷ frames) =
    publish_frame frequency ros frame >>= λ _. publish_frames frequency frames
