-- ===== src/Camera/Infos.antt =====
-- vimbax_camera.cpp: feature_info_query_list. vimbax_camera_helper.hpp: what it fills in.
use vimbax_ros2_driver.Common.{
  ℕ, String, Bool, Option, none, some, List, [], ◌∷◌, Act, pure, ◌>>=◌, bit_and, ◌==◌,
}
use vimbax_ros2_driver.Vmbc.{Api, FeatureInfo}
use vimbax_ros2_driver.Vmbc.Features.{call}
use vimbax_ros2_driver.Camera.{Camera, Module, get_module_handle}

pub record Flags : Type 0 where
  pub flag_none : Bool
  pub flag_read : Bool
  pub flag_write : Bool
  pub flag_volatile : Bool
  pub flag_modify_write : Bool

pub record Info : Type 0 where
  pub name : String
  pub category : String
  pub display_name : String
  pub sfnc_namespace : String
  pub unit : String
  pub data_type : ℕ
  pub flags : Flags
  pub polling_time : ℕ

-- VmbFeatureFlagsType
abbrev flags_read : ℕ
flags_read = 1

abbrev flags_write : ℕ
flags_write = 2

abbrev flags_volatile : ℕ
flags_volatile = 8

abbrev flags_modify_write : ℕ
flags_modify_write = 16

-- `std::string(p ? p : "")`
abbrev pub or_empty : Option String → String
or_empty none = ""
or_empty (some s) = s

-- The flags are read from `featureDataType`, as the code does.
unfoldable pub to_flags : FeatureInfo → Flags
to_flags i = record {
  flag_none = i.feature_data_type == 0;
  flag_read = bit_and i.feature_data_type flags_read == flags_read;
  flag_write = bit_and i.feature_data_type flags_write == flags_write;
  flag_volatile = bit_and i.feature_data_type flags_volatile == flags_volatile;
  flag_modify_write = bit_and i.feature_data_type flags_modify_write == flags_modify_write;
}

unfoldable pub to_info : FeatureInfo → Info
unfolding to_flags
to_info i = record {
  name = or_empty i.name;
  category = or_empty i.category;
  display_name = or_empty i.display_name;
  sfnc_namespace = or_empty i.sfnc_namespace;
  unit = or_empty i.unit;
  data_type = i.feature_data_type;
  flags = to_flags i;
  polling_time = i.polling_time;
}

module _ (api : Api) where
  unfoldable pub feature_info_query_list : Camera → List String → Module → Act api.Dev (List Info)
  unfolding to_info
  feature_info_query_list c [] m = pure []
  feature_info_query_list c (name ∷ names) m = do
    info ← call (api.vmb_feature_info_query (get_module_handle c m) name)
    rest ← feature_info_query_list c names m
    pure (to_info info ∷ rest)
