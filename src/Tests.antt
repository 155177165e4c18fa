-- ===== src/Tests.antt =====
-- A small library that stands for the vendor's, and cameras on it.
pub mod Streams
pub mod Threads
pub mod Locks
pub mod Clients
pub mod Values
pub mod Nodes
pub mod Images
pub mod Opening
pub mod Loading
pub mod Connections
pub mod Buffers
use vimbax_ros2_driver.Common.{
  ℕ, ◌+◌, ◌*◌, ◌^◌, ◌≡◌, refl, String, Bool, true, false, Option, none, some, List, [], ◌∷◌, ℤ, pos,
  negsuc, Exit, value, error, arith, inl, inr, ◌>>=◌,
}
use vimbax_ros2_driver.Error.{success, invalid_call}
use vimbax_ros2_driver.Error.Names.{code_of_text-vmb_error_to_string}
use vimbax_ros2_driver.Vmbc.{Api, CameraInfo, FeatureInfo, VmbFrame}
use vimbax_ros2_driver.Camera.{
  Camera, Frame, World, Module, remote_device, stopped, starting, active, stopping, by_image,
}
use vimbax_ros2_driver.Camera.Stream.{start_streaming, stop_streaming, bring_up}
use vimbax_ros2_driver.Camera.Command.{feature_command_run}
use vimbax_ros2_driver.Camera.Command.Ends.{
  ClockLaws, Returns, NoValue, feature_command_run-Returns, short_timeout_fails,
}
use vimbax_ros2_driver.Camera.Frames.Align.{aligned_size-least, make_frame-size}
use vimbax_ros2_driver.Camera.Frames.Timestamp.{timestamp_to_ns-exact, timestamp_to_ns-slow}
use vimbax_ros2_driver.Camera.Stream.Outcomes.{
  Streaming, Starting, Stopping, Idle, start_streaming-Streaming, stop_streaming-Idle,
}
use vimbax_ros2_driver.Camera.Triple.{Leaves}
use vimbax_ros2_driver.Camera.Stream.Wedged.{
  start, stop, run_calls, failed_start_wedges, failed_stop_wedges,
}
use vimbax_ros2_driver.Camera.Stream.Sessions.{Session, idle, run_calls-Session}

abbrev pub camera_info : CameraInfo
camera_info = record {
  camera_id_string = "DEV_1";
  camera_id_extended = "DEV_1";
  camera_name = "Camera";
  model_name = "Model";
  serial_string = "1";
  transport_layer_handle = 1;
  interface_handle = 2;
  local_device_handle = 3;
  stream_handle = 4;
  permitted_access = 1;
}

-- A library whose state is its clock. `format` is the pixel format that the camera is set to, and
-- `end_code` is what VmbCaptureEnd returns.
abbrev pub fake : ℤ → ℤ → Api
fake format end_code = record {
  Dev = ℕ;
  Float = ℕ;
  vmb_feature_int_get = λ h n d. (success, pos 8, d);
  vmb_feature_int_set = λ h n v d. (success, tt, d);
  vmb_feature_int_range_query = λ h n d. (success, (pos 0, pos 9), d);
  vmb_feature_int_increment_query = λ h n d. (success, pos 1, d);
  vmb_feature_float_get = λ h n d. (success, 0, d);
  vmb_feature_float_set = λ h n v d. (success, tt, d);
  vmb_feature_float_range_query = λ h n d. (success, (0, 9), d);
  vmb_feature_float_increment_query = λ h n d. (success, (false, 0), d);
  vmb_feature_string_size = λ h n d. (success, 3, d);
  vmb_feature_string_get = λ h n size d. (success, ("cam", 3), d);
  vmb_feature_string_set = λ h n v d. (success, tt, d);
  vmb_feature_string_maxlength_query = λ h n d. (success, 3, d);
  vmb_feature_bool_get = λ h n d. (success, true, d);
  vmb_feature_bool_set = λ h n v d. (success, tt, d);
  vmb_feature_enum_get = λ h n d. (success, "Mono8", d);
  vmb_feature_enum_set = λ h n v d. (success, tt, d);
  vmb_feature_enum_range_size = λ h n d. (success, 1, d);
  vmb_feature_enum_range_query = λ h n size d. (success, "Mono8" ∷ [], d);
  vmb_feature_enum_is_available = λ h n v d. (success, true, d);
  vmb_feature_enum_as_int = λ h n v d. (success, format, d);
  vmb_feature_enum_as_string = λ h n v d. (success, "Mono8", d);
  vmb_feature_raw_length_query = λ h n d. (success, 0, d);
  vmb_feature_raw_get = λ h n size d. (success, [], d);
  vmb_feature_raw_set = λ h n v d. (success, tt, d);
  vmb_feature_access_query = λ h n d. (success, (true, true), d);
  vmb_feature_info_query = λ h n d. (
    success,
    record {
      name = some n;
      category = none;
      display_name = none;
      sfnc_namespace = some "Standard";
      unit = none;
      feature_data_type = 3;
      feature_flags = 3;
      polling_time = 0;
    },
    d,
  );
  vmb_features_count = λ h d. (success, 0, d);
  vmb_features_list = λ h n d. (success, [], d);
  vmb_feature_command_run = λ h n d. (success, tt, d);
  vmb_feature_command_is_done = λ h n d. (success, true, d);
  vmb_feature_invalidation_register = λ h n d. (success, tt, d);
  vmb_feature_invalidation_unregister = λ h n d. (success, tt, d);
  vmb_settings_load = λ h path s d. (success, tt, d);
  vmb_settings_save = λ h path s d. (success, tt, d);
  vmb_camera_info_query_by_handle = λ h d. (success, camera_info, d);
  vmb_camera_open = λ id d. (success, 1, d);
  vmb_camera_close = λ h d. (success, tt, d);
  vmb_cameras_count = λ d. (success, 1, d);
  vmb_cameras_list = λ n d. (success, camera_info ∷ [], d);
  vmb_interfaces_count = λ d. (success, 0, d);
  vmb_interfaces_list = λ n d. (success, [], d);
  vmb_payload_size_get = λ h d. (success, 64, d);
  vmb_frame_announce = λ h f d. (success, tt, d);
  vmb_frame_revoke_all = λ h d. (success, tt, d);
  vmb_capture_start = λ h d. (success, tt, d);
  vmb_capture_end = λ h d. (end_code, tt, d);
  vmb_capture_queue_flush = λ h d. (success, tt, d);
  vmb_capture_frame_queue = λ h i d. (success, tt, d);
  now = λ d. d;
  sleep_for = λ ms d. d + ms;
}

abbrev pub mono8_code : ℤ
mono8_code = pos 17301505

-- A camera that works, one set to a format that cannot be streamed, and one that does not stop.
abbrev pub working : Api
working = fake mono8_code success

abbrev pub odd_format : Api
odd_format = fake (pos 5) success

abbrev pub stuck : Api
stuck = fake mono8_code (negsuc 0)

abbrev pub idle_camera : Camera
idle_camera = record {
  camera_handle = 5;
  camera_info = camera_info;
  timestamp_frequency = none;
  feature_info_map = λ m. [];
  feature_category_map = λ m. [];
  frames = [];
  stream_state = stopped;
  frame_ready_queue = [];
  frame_processing_thread = false;
  frame_processing_enable = false;
  invalidation_callbacks = [];
}

abbrev pub one_frame : Frame
one_frame = record {
  vmb_frame = record { context = 0; buffer = true; buffer_size = 64 };
  allocation_mode = by_image;
  callback = some 7;
  size = 64;
  step = 8;
}

abbrev pub busy_camera : Camera
busy_camera = record idle_camera {
  frames = some one_frame ∷ [];
  stream_state = active;
  frame_processing_thread = true;
  frame_processing_enable = true;
}

abbrev pub idle_world : World ℕ
idle_world = record { camera = idle_camera; dev = 0 }

abbrev pub busy_world : World ℕ
busy_world = record { camera = busy_camera; dev = 0 }

abbrev pub busy_Streaming : Streaming 1 7 busy_camera
busy_Streaming = record {
  state = refl;
  count = refl;
  set = (refl, tt);
  thread = refl;
  enable = refl;
}

pub working-ClockLaws : ClockLaws working
working-ClockLaws = record { sleeps = λ ms d. omega arith; steady = λ h n d. omega arith }

pub idle-Session : Session idle_camera
idle-Session = idle (record { state = refl; frames = refl; thread = refl; ready = refl })
