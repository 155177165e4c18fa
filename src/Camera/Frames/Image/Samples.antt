-- ===== src/Camera/Frames/Image/Samples.antt =====
-- The samples of an image that on_frame_ready makes.
use vimbax_ros2_driver.Common.{List}
