-- ===== src/Camera/Features.antt =====
-- vimbax_camera.cpp: feature access. Each method picks the handle of a module and passes the
-- library's error on.
use vimbax_ros2_driver.Common.{ℕ, String, Bool, List, map, ℤ, Act, pure, ◌>>=◌}
use vimbax_ros2_driver.Vmbc.{Api}
use vimbax_ros2_driver.Vmbc.Features
use vimbax_ros2_driver.Vmbc.Features.{call}
use vimbax_ros2_driver.Camera.{Camera, Module, get_module_handle}

pub record FloatInfo (F : Type 0) : Type 0 where
  pub min : F
  pub max : F
  pub inc : F
  pub inc_available : Bool

module _ (api : Api) where
  unfoldable pub feature_int_get : Camera → String → Module → Act api.Dev ℤ
  feature_int_get c name m = Features.feature_int_get api (get_module_handle c m) name

  unfoldable pub feature_int_set : Camera → String → ℤ → Module → Act api.Dev (Unit {0})
  feature_int_set c name v m = Features.feature_int_set api (get_module_handle c m) name v

  unfoldable pub feature_int_info_get : Camera → String → Module → Act api.Dev (ℤ × ℤ × ℤ)
  feature_int_info_get c name m = Features.feature_int_info_get api (get_module_handle c m) name

  unfoldable pub feature_float_get : Camera → String → Module → Act api.Dev api.Float
  feature_float_get c name m = call (api.vmb_feature_float_get (get_module_handle c m) name)

  unfoldable pub feature_float_set : Camera → String → api.Float → Module → Act api.Dev (Unit {0})
  feature_float_set c name v m = call (api.vmb_feature_float_set (get_module_handle c m) name v)

  unfoldable pub feature_float_info_get :
      Camera → String → Module → Act api.Dev (FloatInfo api.Float)
  feature_float_info_get c name m = do
    let handle = get_module_handle c m
    range ← call (api.vmb_feature_float_range_query handle name)
    increment ← call (api.vmb_feature_float_increment_query handle name)
    pure (record { min = range.0; max = range.1; inc = increment.1; inc_available = increment.0 })

  unfoldable pub feature_string_get : Camera → String → Module → Act api.Dev String
  feature_string_get c name m = Features.feature_string_get api (get_module_handle c m) name

  unfoldable pub feature_string_set : Camera → String → String → Module → Act api.Dev (Unit {0})
  feature_string_set c name v m = call (api.vmb_feature_string_set (get_module_handle c m) name v)

  unfoldable pub feature_string_info_get : Camera → String → Module → Act api.Dev ℕ
  feature_string_info_get c name m =
      call (api.vmb_feature_string_maxlength_query (get_module_handle c m) name)

  unfoldable pub feature_bool_get : Camera → String → Module → Act api.Dev Bool
  feature_bool_get c name m = call (api.vmb_feature_bool_get (get_module_handle c m) name)

  unfoldable pub feature_bool_set : Camera → String → Bool → Module → Act api.Dev (Unit {0})
  feature_bool_set c name v m = call (api.vmb_feature_bool_set (get_module_handle c m) name v)

  unfoldable pub feature_command_is_done : Camera → String → Module → Act api.Dev Bool
  feature_command_is_done c name m =
      call (api.vmb_feature_command_is_done (get_module_handle c m) name)

  unfoldable pub feature_raw_get : Camera → String → Module → Act api.Dev (List ℕ)
  feature_raw_get c name m = do
    let handle = get_module_handle c m
    length ← call (api.vmb_feature_raw_length_query handle name)
    call (api.vmb_feature_raw_get handle name length)

  unfoldable pub feature_raw_set : Camera → String → List ℕ → Module → Act api.Dev (Unit {0})
  feature_raw_set c name buffer m =
      call (api.vmb_feature_raw_set (get_module_handle c m) name buffer)

  unfoldable pub feature_raw_info_get : Camera → String → Module → Act api.Dev ℕ
  feature_raw_info_get c name m =
      call (api.vmb_feature_raw_length_query (get_module_handle c m) name)

  unfoldable pub feature_access_mode_get : Camera → String → Module → Act api.Dev (Bool × Bool)
  feature_access_mode_get c name m =
      call (api.vmb_feature_access_query (get_module_handle c m) name)

  unfoldable pub features_list_get : Camera → Module → Act api.Dev (List String)
  features_list_get c m = pure (map (λ p. p.0) (c.feature_info_map m))
