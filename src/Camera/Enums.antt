-- ===== src/Camera/Enums.antt =====
-- vimbax_camera.cpp: enumeration features, and the pixel format.
use vimbax_ros2_driver.Common.{
  ℕ, String, Bool, Option, none, some, List, [], ◌∷◌, ℤ, Act, Result, ok, err, pure, fail, attempt,
  ◌>>=◌, ◌>>◌, if◌then◌else◌, to_u32, str_eq,
}
use vimbax_ros2_driver.Error.{invalid_address, not_available}
use vimbax_ros2_driver.Vmbc.{Api, Handle, FeatureInfo}
use vimbax_ros2_driver.Vmbc.Features.{call}
use vimbax_ros2_driver.Camera.{Camera, Module, remote_device, get_module_handle}

-- `err == VmbErrorSuccess && available`
abbrev keep_if : Result Bool → String → List String → List String
keep_if (ok available) entry rest = if available then entry ∷ rest else rest
keep_if (err e) entry rest = rest

module _ (api : Api) where
  unfoldable pub feature_enum_get : Camera → String → Module → Act api.Dev String
  feature_enum_get c name m = call (api.vmb_feature_enum_get (get_module_handle c m) name)

  unfoldable pub feature_enum_set : Camera → String → String → Module → Act api.Dev (Unit {0})
  feature_enum_set c name v m = call (api.vmb_feature_enum_set (get_module_handle c m) name v)

  -- The loop of feature_enum_info_get: an entry whose query fails is not available.
  unfoldable pub available_of : Handle → String → List String → Act api.Dev (List String)
  available_of handle name [] = pure []
  available_of handle name (entry ∷ entries) = do
    available ← attempt (call (api.vmb_feature_enum_is_available handle name entry))
    rest ← available_of handle name entries
    pure (keep_if available entry rest)

  -- The possible values and the available ones.
  unfoldable pub feature_enum_info_get :
      Camera → String → Module → Act api.Dev (List String × List String)
  unfolding available_of
  feature_enum_info_get c name m = do
    let handle = get_module_handle c m
    num_found ← call (api.vmb_feature_enum_range_size handle name)
    entries ← call (api.vmb_feature_enum_range_query handle name num_found)
    available ← available_of handle name entries
    pure (entries, available)

  unfoldable pub feature_enum_as_int_get : Camera → String → String → Module → Act api.Dev ℤ
  feature_enum_as_int_get c name option m =
      call (api.vmb_feature_enum_as_int (get_module_handle c m) name option)

  unfoldable pub feature_enum_as_string_get : Camera → String → ℤ → Module → Act api.Dev String
  feature_enum_as_string_get c name v m =
      call (api.vmb_feature_enum_as_string (get_module_handle c m) name v)

  unfoldable pub feature_info_query : Camera → String → Module → Act api.Dev FeatureInfo
  feature_info_query c name m = call (api.vmb_feature_info_query (get_module_handle c m) name)

  abbrev check_namespace : Option String → Act api.Dev (Unit {0})
  check_namespace none = fail invalid_address
  check_namespace (some s) = if str_eq s "Standard" then pure tt else fail not_available

  -- The value is cast to the 32 bits of VmbPixelFormatType.
  unfoldable pub get_pixel_format : Camera → Act api.Dev ℕ
  unfolding feature_info_query feature_enum_get feature_enum_as_int_get
  get_pixel_format c = do
    info ← feature_info_query c "PixelFormat" remote_device
    check_namespace info.sfnc_namespace
    current ← feature_enum_get c "PixelFormat" remote_device
    format ← feature_enum_as_int_get c "PixelFormat" current remote_device
    pure (to_u32 format)
