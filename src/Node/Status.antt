-- ===== src/Node/Status.antt =====
-- vimbax_camera_node.cpp: the services for the settings and the status, and the callback on a change of
-- the parameters.
use vimbax_ros2_driver.Common.{
  String, Bool, true, false, List, [], ◌∷◌, Exit, Act, pure, gets, ◌>>=◌, str_eq, if◌then◌else◌,
}
use vimbax_ros2_driver.Error.{not_found}
use vimbax_ros2_driver.Vmbc.{Api}
use vimbax_ros2_driver.Camera.{Camera, is_streaming}
use vimbax_ros2_driver.Camera.Settings.{FileSystem, settings_load, settings_save}
use vimbax_ros2_driver.Camera.Information.{Details, camera_info_get}
use vimbax_ros2_driver.Node.{NodeWorld, Response, ask, answer, refusal}
use vimbax_ros2_driver.Node.Connection.{is_some}

-- A service that asks the camera, if there is one available.
unfoldable pub camera_service : {D A : Type 0} → (Camera → Act D A) → Act (NodeWorld D) (Response A)
camera_service f w =
    if w.node.is_available then answer (ask f w) else (Exit.value (refusal not_found), w)

module _ (api : Api) where
  unfoldable pub settings_load_service :
      FileSystem api.Dev → String → Act (NodeWorld api.Dev) (Response (Unit {0}))
  settings_load_service fs filename = camera_service (settings_load api fs filename)

  unfoldable pub settings_save_service :
      FileSystem api.Dev → String → Act (NodeWorld api.Dev) (Response (Unit {0}))
  settings_save_service fs filename = camera_service (settings_save api fs filename)

  unfoldable pub status : Act (NodeWorld api.Dev) (Response (Details api.Float))
  status = camera_service (camera_info_get api)

-- The service "connected".
unfoldable pub connection_status : {D : Type 0} → Act (NodeWorld D) Bool
connection_status = gets (λ w. is_some w.node.camera)

-- The callback on a change of the parameters with these names: whether it is accepted. The pointer to
-- the camera is not checked.
unfoldable pub on_set_parameters : {D : Type 0} → List String → Act (NodeWorld D) Bool
on_set_parameters [] = pure true
on_set_parameters (name ∷ names) =
    let rest = on_set_parameters names in
    if str_eq name "buffer_count"
    then (do streaming ← ask (λ c. pure (is_streaming c)); if streaming then pure false else rest)
    else rest
