-- ===== src/Camera/Information/Selector.antt =====
-- The trigger selector of a camera whose information is read.
use vimbax_ros2_driver.Common.{
  ℕ, ◌≡◌, String, Option, some, List, [], ◌∷◌, ℤ, Exit, value, error, aborted, int_eq,
  if◌then◌else◌,
}
use vimbax_ros2_driver.Common.Yields.{Yields}
use vimbax_ros2_driver.Error.{is_success}
use vimbax_ros2_driver.Vmbc.{Api, Handle}
use vimbax_ros2_driver.Vmbc.Features as Vmb
use vimbax_ros2_driver.Camera.{Camera, remote_device, get_module_handle}
use vimbax_ros2_driver.Camera.Features
use vimbax_ros2_driver.Camera.Information.{TriggerInfo}

-- What VmbC says of an enumeration feature: a set that succeeds leaves the value, another leaves it as
-- it was, and so does a call that reads.
pub record SelectorLaws (api : Api) (handle : Handle) : Type 0 where
  pub selector : api.Dev → String
  pub sets :
      (v : String) (d : api.Dev)
      → selector (api.vmb_feature_enum_set handle "TriggerSelector" v d).2 ≡ (
          if is_success (api.vmb_feature_enum_set handle "TriggerSelector" v d).0
          then v
          else selector d)
  pub keeps_string_size :
      (h : Handle) (n : String) (d : api.Dev)
      → selector (api.vmb_feature_string_size h n d).2 ≡ selector d
  pub keeps_string_get :
      (h : Handle) (n : String) (k : ℕ) (d : api.Dev)
      → selector (api.vmb_feature_string_get h n k d).2 ≡ selector d
  pub keeps_int_get :
      (h : Handle) (n : String) (d : api.Dev)
      → selector (api.vmb_feature_int_get h n d).2 ≡ selector d
  pub keeps_float_get :
      (h : Handle) (n : String) (d : api.Dev)
      → selector (api.vmb_feature_float_get h n d).2 ≡ selector d
  pub keeps_enum_get :
      (h : Handle) (n : String) (d : api.Dev)
      → selector (api.vmb_feature_enum_get h n d).2 ≡ selector d
  pub keeps_range_size :
      (h : Handle) (n : String) (d : api.Dev)
      → selector (api.vmb_feature_enum_range_size h n d).2 ≡ selector d
  pub keeps_range_query :
      (h : Handle) (n : String) (k : ℕ) (d : api.Dev)
      → selector (api.vmb_feature_enum_range_query h n k d).2 ≡ selector d
  pub keeps_is_available :
      (h : Handle) (n v : String) (d : api.Dev)
      → selector (api.vmb_feature_enum_is_available h n v d).2 ≡ selector d

-- The selector of the last entry, or else `s`.
abbrev pub last_of : String → List TriggerInfo → String
last_of s [] = s
last_of s (t ∷ ts) = last_of t.selector ts

module _ (api : Api) (c : Camera)
    (laws : SelectorLaws api (get_module_handle c remote_device)) where
  -- The selector is at `s`.
  abbrev pub AtSelector : String → api.Dev → Type 0
  AtSelector s d = laws.selector d ≡ s
