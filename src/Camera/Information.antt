-- ===== src/Camera/Information.antt =====
-- vimbax_camera.cpp: query_camera_info and camera_info_get.
pub mod Selector
use vimbax_ros2_driver.Common.{
  ℕ, String, Bool, true, false, Option, none, some, List, [], ◌∷◌, ◌++◌, ℤ, Act, Result, ok, err,
  pure, fail, attempt, ◌>>=◌, ◌>>◌, int_eq, to_u32, to_u64, if◌then◌else◌,
}
use vimbax_ros2_driver.Error.{not_available}
use vimbax_ros2_driver.Vmbc.{Api, CameraInfo}
use vimbax_ros2_driver.Vmbc.Features as Vmb
use vimbax_ros2_driver.Vmbc.Features.{call}
use vimbax_ros2_driver.Address.Text.{ip_text, mac_text}
use vimbax_ros2_driver.Camera.{
  Camera, remote_device, interface, system, local_device, has_feature, is_streaming,
}
use vimbax_ros2_driver.Camera.Features
use vimbax_ros2_driver.Camera.Enums.{feature_enum_get, feature_enum_set, feature_enum_info_get}

pub record TriggerInfo : Type 0 where
  pub selector : String
  pub mode : String
  pub source : String

-- VimbaXCamera::Info. A frame rate that the camera does not have stays at 0.0: `none`.
pub record Details (F : Type 0) : Type 0 where
  pub display_name : String
  pub model_name : String
  pub firmware_version : String
  pub device_id : String
  pub device_user_id : String
  pub device_serial_number : String
  pub interface_id : String
  pub transport_layer_id : String
  pub ip_address : Option (List ℕ)
  pub mac_address : Option (List ℕ)
  pub streaming : Bool
  pub width : ℕ
  pub height : ℕ
  pub frame_rate : Option F
  pub pixel_format : String
  pub trigger_info : List TriggerInfo

-- The lambda get_opt.
abbrev pub get_opt : Result String → String
get_opt (ok s) = s
get_opt (err e) = "N/A"

module _ (api : Api) where
  unfoldable pub query_camera_info : Camera → Act api.Dev CameraInfo
  query_camera_info c = call (api.vmb_camera_info_query_by_handle c.camera_handle)

  abbrev pub rate_of : Result api.Float → Act api.Dev (Option api.Float)
  rate_of (ok rate) = pure (some rate)
  rate_of (err e) = if int_eq e not_available then pure none else fail e

  abbrev pub describe : Bool → String → Camera → Act api.Dev (List TriggerInfo)
  describe true selector c = do
    mode ← attempt (feature_enum_get api c "TriggerMode" remote_device)
    source ← attempt (feature_enum_get api c "TriggerSource" remote_device)
    pure (record { selector = selector; mode = get_opt mode; source = get_opt source } ∷ [])
  describe false selector c = pure []

  abbrev pub set_ok : Result (Unit {0}) → Bool
  set_ok (ok u) = true
  set_ok (err e) = false

  -- The loop over the selectors: each is written to the camera.
  unfoldable pub triggers : Camera → List String → Act api.Dev (List TriggerInfo)
  triggers c [] = pure []
  triggers c (selector ∷ selectors) = do
    res ← attempt (feature_enum_set api c "TriggerSelector" selector remote_device)
    info ← describe (set_ok res) selector c
    rest ← triggers c selectors
    pure (info ++ rest)

  -- The bytes of the int64_t, if the camera has the feature and it can be read.
  abbrev pub text_of : (ℕ → List ℕ) → Result ℤ → Option (List ℕ)
  text_of f (ok z) = some (f (to_u64 z))
  text_of f (err e) = none

  unfoldable pub address_of : Bool → (ℕ → List ℕ) → String → Camera → Act api.Dev (Option (List ℕ))
  address_of true f name c = do
    res ← attempt (Vmb.feature_int_get api c.camera_info.local_device_handle name)
    pure (text_of f res)
  address_of false f name c = pure none

  unfoldable pub camera_info_get : Camera → Act api.Dev (Details api.Float)
  unfolding triggers address_of
  camera_info_get c = do
    firmware_version ← Features.feature_string_get api c "DeviceFirmwareVersion" remote_device
    device_user_id ← Features.feature_string_get api c "DeviceUserID" remote_device
    interface_id ← Vmb.feature_string_get api c.camera_info.interface_handle "InterfaceID"
    transport_layer_id ← Vmb.feature_string_get api c.camera_info.transport_layer_handle "TLID"
    width ← Features.feature_int_get api c "Width" remote_device
    height ← Features.feature_int_get api c "Height" remote_device
    rate ← attempt (Features.feature_float_get api c "AcquisitionFrameRate" remote_device)
    frame_rate ← rate_of rate
    pixel_format ← feature_enum_get api c "PixelFormat" remote_device
    selectors ← feature_enum_info_get api c "TriggerSelector" remote_device
    trigger_info ← triggers c selectors.1
    ip_address ←
        address_of (has_feature c "GevDeviceIPAddress" remote_device) ip_text "GevDeviceIPAddress" c
    mac_address ←
        address_of (has_feature c "GevDeviceMACAddress" remote_device) mac_text
          "GevDeviceMACAddress" c
    pure (record {
      display_name = c.camera_info.camera_name;
      model_name = c.camera_info.model_name;
      firmware_version = firmware_version;
      device_id = c.camera_info.camera_id_string;
      device_user_id = device_user_id;
      device_serial_number = c.camera_info.serial_string;
      interface_id = interface_id;
      transport_layer_id = transport_layer_id;
      ip_address = ip_address;
      mac_address = mac_address;
      streaming = is_streaming c;
      width = to_u32 width;
      height = to_u32 height;
      frame_rate = frame_rate;
      pixel_format = pixel_format;
      trigger_info = trigger_info;
    })
