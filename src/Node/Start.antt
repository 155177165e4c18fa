-- ===== src/Node/Start.antt =====
-- vimbax_camera_node.cpp: VimbaXCameraNode::initialize. What ROS and the loader of the library give is a
-- parameter: whether each object is there. VmbVersionQuery, whose outcome is only logged, is left out.
pub mod Ready
use vimbax_ros2_driver.Common.{Bool, true, false, none, Act, pure, ◌>>=◌, ◌>>◌, ◌&&◌}
use vimbax_ros2_driver.Vmbc.{Api}
use vimbax_ros2_driver.Camera.Settings.{FileSystem}
use vimbax_ros2_driver.Node.{Node, NodeWorld}
use vimbax_ros2_driver.Node.Connection.{
  OpenParameters, on_library, initialize_camera_observer, initialize_camera,
}

-- What `initialize` and the functions that it calls test for.
pub record Objects : Type 0 where
  pub node : Bool
  pub api : Bool
  pub feature_callback_group : Bool
  pub settings_load_save_callback_group : Bool
  pub status_callback_group : Bool
  pub stream_start_stop_callback_group : Bool
  pub camera_publisher : Bool
  pub feature_services : Bool
  pub settings_services : Bool
  pub status_services : Bool
  pub stream_services : Bool
  pub feature_invalidation_event_publisher : Bool
  pub event_event_publisher : Bool
  pub graph_notify_thread : Bool

-- The members before `initialize`.
abbrev pub new_node : Node
new_node = record {
  camera = none;
  is_available = false;
  stream_stopped_by_service = false;
  stream_restart_required = false;
  last_frame_id = none;
  last_camera_id = "";
  restart_pending = false;
  reconnects = 0;
}

-- `if (!done) { return false; }`, before the rest.
abbrev pub then_if : {S : Type 0} → Bool → Act S Bool → Act S Bool
then_if true rest = rest
then_if false rest = pure false

abbrev pub callback_groups : Objects → Bool
callback_groups o =
    o.feature_callback_group && o.settings_load_save_callback_group && o.status_callback_group
    && o.stream_start_stop_callback_group

-- The functions behind initialize_camera that only make ROS objects.
abbrev pub rest_of : Objects → Bool
rest_of o =
    callback_groups o
    && o.camera_publisher
    && o.feature_services
    && o.settings_services
    && o.status_services
    && o.stream_services
    && o.feature_invalidation_event_publisher
    && o.event_event_publisher
    && o.graph_notify_thread

module _ (api : Api) (fs : FileSystem api.Dev) (parameters : OpenParameters)
    (objects : Objects) where
  open_after : Bool → Act (NodeWorld api.Dev) Bool
  open_after observed =
      then_if observed
        (do opened ← initialize_camera api fs parameters; then_if opened (pure (rest_of objects)))

  unfoldable pub initialize : Act (NodeWorld api.Dev) Bool
  unfolding open_after
  initialize =
      then_if (objects.node && objects.api)
        (do observed ← on_library (initialize_camera_observer api); open_after observed)
