-- ===== src/Node/Connection.antt =====
-- vimbax_camera_node.cpp: the camera observer, opening the camera and opening it again, and the
-- destructor. The discovery callback, and the thread that it starts, each run as one step. The
-- parameters are there when they are read; rclcpp::shutdown, which only ends the process, is left out.
pub mod Changes
pub mod Notices
pub mod Overlap
pub mod Holds
pub mod Silent
use vimbax_ros2_driver.Common.{
  ℕ, zero, suc, String, Bool, true, false, Option, none, some, List, [], ◌∷◌, Exit, Act, Result, ok,
  err, pure, gets, attempt, is_ok, ◌>>=◌, ◌>>◌, ◌==◌, ◌&&◌, ◌||◌, not, str_eq, codes, if◌then◌else◌,
}
use vimbax_ros2_driver.Vmbc.{Api, Handle}
use vimbax_ros2_driver.Vmbc.Features.{call}
use vimbax_ros2_driver.Camera.{Camera}
use vimbax_ros2_driver.Camera.Stream as CameraStream
use vimbax_ros2_driver.Camera.Open.{open_by_name}
use vimbax_ros2_driver.Camera.Settings.{FileSystem, settings_load}
use vimbax_ros2_driver.Camera.Information.{Details, query_camera_info, camera_info_get}
use vimbax_ros2_driver.Vmbc.{CameraInfo}
use vimbax_ros2_driver.Node.{Node, NodeWorld, ask, tell}
use vimbax_ros2_driver.Node.Stream.{set_node, streaming_of}

-- The parameters that opening the camera reads.
pub record OpenParameters : Type 0 where
  pub camera_id : String
  pub settings_file : String

-- A call on the library, from the node.
unfoldable pub on_library : {D A : Type 0} → Act D A → Act (NodeWorld D) A
on_library m w = let (r, d) = m w.dev in (r, record w { dev = d })

abbrev pub is_some : Option Camera → Bool
is_some none = false
is_some (some c) = true

-- `text.find(part) != npos`
abbrev pub is_prefix : List ℕ → List ℕ → Bool
is_prefix [] ys = true
is_prefix (x ∷ xs) [] = false
is_prefix (x ∷ xs) (y ∷ ys) = (x == y) && is_prefix xs ys

abbrev pub contains : List ℕ → List ℕ → Bool
contains xs [] = is_prefix xs []
contains xs (y ∷ ys) = is_prefix xs (y ∷ ys) || contains xs ys

-- gVmbHandle
abbrev pub global_handle : Handle
global_handle = 1

module _ (api : Api) where
  -- The three calls of initialize_camera_observer and of deinitialize_camera_observer.
  unfoldable pub initialize_camera_observer : Act api.Dev Bool
  initialize_camera_observer = do
    res ← attempt (do
      call (api.vmb_feature_enum_set global_handle "EventSelector" "CameraDiscovery")
      call (api.vmb_feature_enum_set global_handle "EventNotification" "On")
      call (api.vmb_feature_invalidation_register global_handle "EventCameraDiscovery"))
    pure (is_ok res)

  unfoldable pub deinitialize_camera_observer : Act api.Dev Bool
  deinitialize_camera_observer = do
    res ← attempt (do
      call (api.vmb_feature_enum_set global_handle "EventSelector" "CameraDiscovery")
      call (api.vmb_feature_enum_set global_handle "EventNotification" "Off")
      call (api.vmb_feature_invalidation_unregister global_handle "EventCameraDiscovery"))
    pure (is_ok res)

  -- The destructor of the camera that the pointer holds, if it holds one.
  unfoldable pub close_old : Option Camera → Act api.Dev (Unit {0})
  close_old none d = (Exit.value tt, d)
  close_old (some c) d =
      let (r, w) = CameraStream.destroy api (record { camera = c; dev = d }) in (r, w.dev)

  -- `camera_ = …`: the old camera goes when the pointer has its new value.
  unfoldable pub set_camera : Option Camera → Act (NodeWorld api.Dev) (Unit {0})
  unfolding close_old
  set_camera new w =
      let (r, d) = close_old w.node.camera w.dev in
      (r, record { node = record w.node { camera = new }; dev = d })

  abbrev pub filled_if : Bool → Handle → ℕ → Act api.Dev (String × ℕ)
  filled_if true handle count = pure ("", 0)
  filled_if false handle count =
      call (api.vmb_feature_string_get handle "EventCameraDiscoveryCameraID" count)

  -- The id of the camera of the notice: with no buffer its size, then the buffer as a C string.
  unfoldable pub discovered_id : Handle → Act api.Dev String
  discovered_id handle = do
    count ← call (api.vmb_feature_string_size handle "EventCameraDiscoveryCameraID")
    filled ← filled_if (count == 0) handle count
    pure filled.0

  unfoldable pub disconnect : Act (NodeWorld api.Dev) (Unit {0})
  disconnect = do
    set_node (λ n. record n { restart_pending = streaming_of n.camera; is_available = false })
    set_camera none

  -- `connected` and `last_camera_id` are what the callback has read before.
  unfoldable pub react : Bool → String → String → String → Act (NodeWorld api.Dev) (Unit {0})
  unfolding disconnect
  react connected last_camera_id camera_id reason =
      if str_eq reason "Missing"
      then (if contains (codes last_camera_id) (codes camera_id) && connected
          then disconnect
          else pure tt)
      else if str_eq reason "Detected"
      then (if contains (codes last_camera_id) (codes camera_id) && not connected
          then set_node (λ n. record n { reconnects = suc n.reconnects })
          else pure tt)
      else pure tt

  abbrev pub react_to : Bool → String → Handle → Result String → Act (NodeWorld api.Dev) (Unit {0})
  react_to connected last_camera_id handle (ok camera_id) = do
    reason ← on_library (call (api.vmb_feature_enum_get handle "EventCameraDiscoveryType"))
    react connected last_camera_id camera_id reason
  react_to connected last_camera_id handle (err e) = pure tt

  -- An error of the library ends the callback with a log entry at most.
  unfoldable pub on_camera_discovery_callback : Handle → Act (NodeWorld api.Dev) (Unit {0})
  unfolding react
  on_camera_discovery_callback handle = do
    camera_id ← attempt (on_library (discovered_id handle))
    connected ← gets (λ w. is_some w.node.camera)
    last_camera_id ← gets (λ w. w.node.last_camera_id)
    res ← attempt (
        if str_eq last_camera_id ""
        then pure tt
        else react_to connected last_camera_id handle camera_id)
    pure tt

  -- `if (camera_ && camera_->is_streaming())`
  stop_if : Bool → Act (NodeWorld api.Dev) (Unit {0})
  stop_if true = do res ← attempt (tell (CameraStream.stop_streaming api)); pure tt
  stop_if false = pure tt

  -- The destructor of the node.
  unfoldable pub destroy_node : Act (NodeWorld api.Dev) (Unit {0})
  unfolding stop_if
  destroy_node = do
    done ← on_library deinitialize_camera_observer
    streaming ← gets (λ w. streaming_of w.node.camera)
    stop_if streaming
    set_node (λ n. record n { last_camera_id = "" })
    set_camera none

module _ (api : Api) (fs : FileSystem api.Dev) (parameters : OpenParameters) where
  abbrev pub name_to_open : Node → String
  name_to_open n = if str_eq n.last_camera_id "" then parameters.camera_id else n.last_camera_id

  abbrev pub remember : Result CameraInfo → Node → Node
  remember (ok info) n = record n { last_camera_id = info.camera_id_string }
  remember (err e) n = n

  load_if : Bool → Act (NodeWorld api.Dev) (Unit {0})
  load_if true = do res ← attempt (ask (settings_load api fs parameters.settings_file)); pure tt
  load_if false = pure tt

  abbrev pub available_if : Result (Details api.Float) → Act (NodeWorld api.Dev) Bool
  available_if (ok info) = do set_node (λ n. record n { is_available = true }); pure true
  available_if (err e) = pure false

  -- What follows the opening.
  unfoldable pub set_up : Option Camera → Act (NodeWorld api.Dev) Bool
  unfolding load_if
  set_up none = pure false
  set_up (some c) = do
    result ← attempt (ask (query_camera_info api))
    set_node (remember result)
    load_if (not (str_eq parameters.settings_file ""))
    info_res ← attempt (ask (camera_info_get api))
    available_if info_res

  unfoldable pub initialize_camera : Act (NodeWorld api.Dev) Bool
  unfolding set_up
  initialize_camera = do
    name ← gets (λ w. name_to_open w.node)
    opened ← on_library (open_by_name api name)
    set_camera api opened
    set_up opened

  abbrev pub restart_if : Bool → Act (NodeWorld api.Dev) (Unit {0})
  restart_if true =
      set_node
        (λ n. record n { stream_restart_required = n.restart_pending; restart_pending = false })
  restart_if false = pure tt

  -- The thread that the callback starts.
  unfoldable pub reconnect : Act (NodeWorld api.Dev) (Unit {0})
  unfolding initialize_camera
  reconnect = do done ← initialize_camera; restart_if done
