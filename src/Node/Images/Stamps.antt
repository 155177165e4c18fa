-- ===== src/Node/Images/Stamps.antt =====
-- The stamp of an image that carries the camera's time.
use vimbax_ros2_driver.Common.{
  ℕ, ◌+◌, ◌*◌, ◌/◌, ◌^◌, ◌<◌, ◌≡◌, refl, pos, arith, false, some, value,
}
use vimbax_ros2_driver.Camera.Frames.Timestamp.{nano_den, timestamp_to_ns-exact}
use vimbax_ros2_driver.Node.Images.{
  Stamp, Surroundings, ReadyFrame, stamp_of, split_seconds, frame_stamp,
}

-- The stamp says `ns` nanoseconds.
pub Says : ℕ → Stamp → Type 0
Says ns s =
    (s.sec ≡ pos (ns / nano_den))
    × (ns / nano_den * nano_den + s.nanosec ≡ ns)
    × (s.nanosec < nano_den)

-- The stamp of a time in nanoseconds, while its seconds fit int32_t.
pub stamp_of-Says : (ns : ℕ) → ns < 2 ^ 31 * nano_den → Says ns (stamp_of ns)
unfolding Says stamp_of split_seconds
stamp_of-Says ns h = ground arith

-- On a camera whose tick is a whole number of nanoseconds, `n` to the second, and without the time of
-- ROS, a frame's stamp is its ticks in nanoseconds, as whole seconds and less than a second more,
-- while the seconds fit int32_t.
pub frame_stamp-exact :
    (frequency n : ℕ) (ros : Surroundings) (frame : ReadyFrame)
    → frequency * n ≡ nano_den
    → ros.use_ros_time ≡ false
    → frame.timestamp * n < 2 ^ 31 * nano_den
    → (s : Stamp) × (frame_stamp (some frequency) ros frame ≡ value s)
      × Says (frame.timestamp * n) s
unfolding frame_stamp
frame_stamp-exact frequency n ros frame e camera_time fits =
    let fit : frame.timestamp * n < 2 ^ 64 = omega arith in
    (
      stamp_of (frame.timestamp * n),
      rw (camera_time, timestamp_to_ns-exact frequency n frame.timestamp e fit) refl,
      stamp_of-Says (frame.timestamp * n) fits,
    )
