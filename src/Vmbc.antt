-- ===== src/Vmbc.antt =====
-- The VmbC library: what vmbc_interface/include/VmbC/VmbC.h declares, as a record of functions over
-- the library's own state. Its code is not part of the repository. A call yields its error code and
-- its out-parameters; a text is a `String`, a handle is a number (0 is the null handle), and a
-- frame is named by the number that its `context[0]` holds.
pub mod Features
pub mod Honest
use vimbax_ros2_driver.Common.{ℕ, String, Bool, Option, List, ℤ}

abbrev pub Handle : Type 0
Handle = ℕ

-- VmbFeatureInfo: a `const char *` may be null.
pub record FeatureInfo : Type 0 where
  pub name : Option String
  pub category : Option String
  pub display_name : Option String
  pub sfnc_namespace : Option String
  pub unit : Option String
  pub feature_data_type : ℕ
  pub feature_flags : ℕ
  pub polling_time : ℕ

-- VmbCameraInfo, with the first of its stream handles.
pub record CameraInfo : Type 0 where
  pub camera_id_string : String
  pub camera_id_extended : String
  pub camera_name : String
  pub model_name : String
  pub serial_string : String
  pub transport_layer_handle : Handle
  pub interface_handle : Handle
  pub local_device_handle : Handle
  pub stream_handle : Handle
  pub permitted_access : ℕ

-- VmbInterfaceInfo
pub record InterfaceInfo : Type 0 where
  pub interface_handle : Handle
  pub interface_type : ℕ

-- VmbFrame, as the driver hands it to FrameAnnounce: a null buffer is `false`.
pub record VmbFrame : Type 0 where
  pub context : ℕ
  pub buffer : Bool
  pub buffer_size : ℕ

-- VmbFeaturePersistSettings
pub record PersistSettings : Type 0 where
  pub persist_type : ℕ
  pub module_persist_flags : ℕ
  pub max_iterations : ℕ
  pub logging_level : ℕ

-- A call on the library: its error code, its out-parameters and the state that it leaves.
abbrev pub Call : Type 0 → Type 0 → Type 0
Call D A = D → ℤ × A × D

pub record Api : Type 1 where
  -- the state of the library and of the devices behind it
  pub Dev : Type 0
  pub Float : Type 0
  pub vmb_feature_int_get : Handle → String → Call Dev ℤ
  pub vmb_feature_int_set : Handle → String → ℤ → Call Dev (Unit {0})
  pub vmb_feature_int_range_query : Handle → String → Call Dev (ℤ × ℤ)
  pub vmb_feature_int_increment_query : Handle → String → Call Dev ℤ
  pub vmb_feature_float_get : Handle → String → Call Dev Float
  pub vmb_feature_float_set : Handle → String → Float → Call Dev (Unit {0})
  pub vmb_feature_float_range_query : Handle → String → Call Dev (Float × Float)
  pub vmb_feature_float_increment_query : Handle → String → Call Dev (Bool × Float)
  -- with no buffer: the size that a buffer needs
  pub vmb_feature_string_size : Handle → String → Call Dev ℕ
  -- with a buffer of that size: the buffer's content and the size filled
  pub vmb_feature_string_get : Handle → String → ℕ → Call Dev (String × ℕ)
  pub vmb_feature_string_set : Handle → String → String → Call Dev (Unit {0})
  pub vmb_feature_string_maxlength_query : Handle → String → Call Dev ℕ
  pub vmb_feature_bool_get : Handle → String → Call Dev Bool
  pub vmb_feature_bool_set : Handle → String → Bool → Call Dev (Unit {0})
  pub vmb_feature_enum_get : Handle → String → Call Dev String
  pub vmb_feature_enum_set : Handle → String → String → Call Dev (Unit {0})
  -- with no array: the number of entries; with one of that length: its entries
  pub vmb_feature_enum_range_size : Handle → String → Call Dev ℕ
  pub vmb_feature_enum_range_query : Handle → String → ℕ → Call Dev (List String)
  pub vmb_feature_enum_is_available : Handle → String → String → Call Dev Bool
  pub vmb_feature_enum_as_int : Handle → String → String → Call Dev ℤ
  pub vmb_feature_enum_as_string : Handle → String → ℤ → Call Dev String
  pub vmb_feature_raw_length_query : Handle → String → Call Dev ℕ
  -- a buffer of the given length: its content after the call
  pub vmb_feature_raw_get : Handle → String → ℕ → Call Dev (List ℕ)
  pub vmb_feature_raw_set : Handle → String → List ℕ → Call Dev (Unit {0})
  pub vmb_feature_access_query : Handle → String → Call Dev (Bool × Bool)
  pub vmb_feature_info_query : Handle → String → Call Dev FeatureInfo
  pub vmb_features_count : Handle → Call Dev ℕ
  pub vmb_features_list : Handle → ℕ → Call Dev (List FeatureInfo)
  pub vmb_feature_command_run : Handle → String → Call Dev (Unit {0})
  pub vmb_feature_command_is_done : Handle → String → Call Dev Bool
  pub vmb_feature_invalidation_register : Handle → String → Call Dev (Unit {0})
  pub vmb_feature_invalidation_unregister : Handle → String → Call Dev (Unit {0})
  pub vmb_settings_load : Handle → String → PersistSettings → Call Dev (Unit {0})
  pub vmb_settings_save : Handle → String → PersistSettings → Call Dev (Unit {0})
  pub vmb_camera_info_query_by_handle : Handle → Call Dev CameraInfo
  pub vmb_camera_open : String → Call Dev Handle
  pub vmb_camera_close : Handle → Call Dev (Unit {0})
  pub vmb_cameras_count : Call Dev ℕ
  pub vmb_cameras_list : ℕ → Call Dev (List CameraInfo)
  pub vmb_interfaces_count : Call Dev ℕ
  pub vmb_interfaces_list : ℕ → Call Dev (List InterfaceInfo)
  pub vmb_payload_size_get : Handle → Call Dev ℕ
  pub vmb_frame_announce : Handle → VmbFrame → Call Dev (Unit {0})
  pub vmb_frame_revoke_all : Handle → Call Dev (Unit {0})
  pub vmb_capture_start : Handle → Call Dev (Unit {0})
  pub vmb_capture_end : Handle → Call Dev (Unit {0})
  pub vmb_capture_queue_flush : Handle → Call Dev (Unit {0})
  pub vmb_capture_frame_queue : Handle → ℕ → Call Dev (Unit {0})
  -- std::chrono::steady_clock, in milliseconds, and std::this_thread::sleep_for
  pub now : Dev → ℕ
  pub sleep_for : ℕ → Dev → Dev
