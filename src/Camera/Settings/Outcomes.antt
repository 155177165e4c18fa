-- ===== src/Camera/Settings/Outcomes.antt =====
-- What loading and saving the settings does.
use vimbax_ros2_driver.Common.{◌≡◌, String, true, false, error, ◌>>=◌}
use vimbax_ros2_driver.Error.{not_found}
use vimbax_ros2_driver.Vmbc.{Api}
use vimbax_ros2_driver.Vmbc.Features.{call}
use vimbax_ros2_driver.Camera.{Camera}
use vimbax_ros2_driver.Camera.Settings.{
  FileSystem, settings_load, settings_save, get_default_feature_persist_settings,
}

-- Take the name of an XML file without a directory, which std::filesystem gives the empty parent path,
-- and the empty path does not exist. Saving to it is refused with VmbErrorNotFound and calls nothing,
-- while loading from it, if the file is there, calls the library.
pub settings_save-bare_name :
    (api : Api) (fs : FileSystem api.Dev) (file_name : String) (c : Camera) (d : api.Dev)
    → fs.extension file_name ≡ ".xml"
    → fs.parent_path file_name ≡ ""
    → fs.exists d "" ≡ false
    → fs.exists d file_name ≡ true
    → (settings_save api fs file_name c d ≡ (error not_found, d))
      × (settings_load api fs file_name c d
          ≡ call
              (api.vmb_settings_load c.camera_handle file_name get_default_feature_persist_settings)
              d)
unfolding settings_save settings_load ◌>>=◌
settings_save-bare_name api fs file_name c d x p m e = (simp (x, p, m), simp e)
