-- ===== src/Camera/Settings.antt =====
-- vimbax_camera.cpp: settings_load and settings_save. std::filesystem is a parameter; what it finds
-- depends on the state that the library leaves, because a save writes a file.
pub mod Outcomes
use vimbax_ros2_driver.Common.{ℕ, String, Bool, Act, pure, gets, guard, ◌>>=◌, ◌>>◌, str_eq}
use vimbax_ros2_driver.Error.{not_found, invalid_value}
use vimbax_ros2_driver.Vmbc.{Api, PersistSettings}
use vimbax_ros2_driver.Vmbc.Features.{call}
use vimbax_ros2_driver.Camera.{Camera}

-- std::filesystem, for the paths that are made from a text.
pub record FileSystem (D : Type 0) : Type 0 where
  pub exists : D → String → Bool
  pub extension : String → String
  pub parent_path : String → String

-- VmbFeaturePersistNoLUT; RemoteDevice, LocalDevice and Streams; VmbLogLevelWarn.
unfoldable pub get_default_feature_persist_settings : PersistSettings
get_default_feature_persist_settings = record {
  persist_type = 2;
  module_persist_flags = 0x1c;
  max_iterations = 10;
  logging_level = 3;
}

module _ (api : Api) (fs : FileSystem api.Dev) where
  unfoldable pub settings_load : String → Camera → Act api.Dev (Unit {0})
  settings_load file_name c = do
    there ← gets (λ d. fs.exists d file_name)
    guard there not_found
    call (api.vmb_settings_load c.camera_handle file_name get_default_feature_persist_settings)

  unfoldable pub settings_save : String → Camera → Act api.Dev (Unit {0})
  settings_save file_name c = do
    guard (str_eq (fs.extension file_name) ".xml") invalid_value
    there ← gets (λ d. fs.exists d (fs.parent_path file_name))
    guard there not_found
    call (api.vmb_settings_save c.camera_handle file_name get_default_feature_persist_settings)
