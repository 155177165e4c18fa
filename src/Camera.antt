-- ===== src/Camera.antt =====
-- vimbax_camera.hpp: the class VimbaXCamera, its state and the parts that do not call the library.
pub mod Features
pub mod Enums
pub mod Infos
pub mod Command
pub mod Frames
pub mod Triple
pub mod Stream
pub mod Threads
pub mod Queue
pub mod Construct
pub mod Open
pub mod Settings
pub mod Information
pub mod Invalidation
use vimbax_ros2_driver.Common.{
  ℕ, String, Bool, true, false, Option, none, some, List, [], ◌∷◌, ℤ, Exit, Act, str_eq, ◌||◌,
  if◌then◌else◌,
}
use vimbax_ros2_driver.Vmbc.{Handle, FeatureInfo, CameraInfo, VmbFrame}

pub data Module : Type 0 where
  system interface local_device remote_device stream : Module

pub data StreamState : Type 0 where
  stopped starting active stopping : StreamState

pub data AllocationMode : Type 0 where
  by_image by_tl : AllocationMode

-- VimbaXCamera::Frame. A callback is named by a number; `size` is that of the image's own data.
pub record Frame : Type 0 where
  pub vmb_frame : VmbFrame
  pub allocation_mode : AllocationMode
  pub callback : Option ℕ
  pub size : ℕ
  pub step : ℕ

-- An entry of `frames_` is null until the frame is created.
pub record Camera : Type 0 where
  pub camera_handle : Handle
  pub camera_info : CameraInfo
  pub timestamp_frequency : Option ℕ
  pub feature_info_map : Module → List (String × FeatureInfo)
  pub feature_category_map : Module → List (String × String)
  pub frames : List (Option Frame)
  pub stream_state : StreamState
  pub frame_ready_queue : List Frame
  pub frame_processing_thread : Bool
  pub frame_processing_enable : Bool
  pub invalidation_callbacks : List (String × ℕ)

-- A camera and the library's state. The methods that are not const change both.
pub record World (D : Type 0) : Type 0 where
  pub camera : Camera
  pub dev : D

unfoldable pub get_module_handle : Camera → Module → Handle
get_module_handle c system = c.camera_info.transport_layer_handle
get_module_handle c interface = c.camera_info.interface_handle
get_module_handle c local_device = c.camera_info.local_device_handle
get_module_handle c remote_device = c.camera_handle
get_module_handle c stream = c.camera_info.stream_handle

abbrev pub has_key {ℓ} : {V : Type ℓ} → String → List (String × V) → Bool
has_key k [] = false
has_key k ((j, v) ∷ m) = str_eq j k || has_key k m

unfoldable pub has_feature : Camera → String → Module → Bool
has_feature c name m = has_key name (c.feature_info_map m)

unfoldable pub is_streaming : Camera → Bool
is_streaming c = elim c.stream_state [ active ↦ true | starting ↦ true | _ ↦ false ]

-- A const method run from one that is not: only the library's state changes.
unfoldable pub on_dev : {D A : Type 0} → (Camera → Act D A) → Act (World D) A
on_dev f w = let (r, d) = f w.camera w.dev in (r, record w { dev = d })

-- A write to the camera's own fields.
unfoldable pub update : {D : Type 0} → (Camera → Camera) → Act (World D) (Unit {0})
update f w = (Exit.value tt, record w { camera = f w.camera })
