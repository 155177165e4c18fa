-- ===== src/Node/Steps.antt =====
-- vimbax_camera_node.cpp: the steps of a node, and any sequence of them.
use vimbax_ros2_driver.Common.{
  ℕ, zero, suc, String, List, [], ◌∷◌, foldl, str_eq, true, false, gets,
}
use vimbax_ros2_driver.Vmbc.{Api, Handle}
use vimbax_ros2_driver.Camera.Settings.{FileSystem, settings_load, settings_save}
use vimbax_ros2_driver.Camera.Information.{camera_info_get}
use vimbax_ros2_driver.Node.{Node, NodeWorld}
use vimbax_ros2_driver.Node.Services.{Request, handle}
use vimbax_ros2_driver.Node.Stream
use vimbax_ros2_driver.Node.Stream.{Parameters, stream_start, stream_stop, graph_round}
use vimbax_ros2_driver.Node.Status.{
  settings_load_service, settings_save_service, status, connection_status, on_set_parameters,
}
use vimbax_ros2_driver.Node.Owners.{
  Callbacks, subscribe_feature, unsubscribe_feature, subscribe_event, unsubscribe_event,
}
use vimbax_ros2_driver.Node.Connection.{OpenParameters, on_camera_discovery_callback, reconnect}
use vimbax_ros2_driver.Node.Keeps.{
  Keeps, handle-Keeps, camera_service-Keeps, pure-Keeps, bind-Keeps, ask-Keeps, choose-Keeps,
}
use vimbax_ros2_driver.Node.Handlers.{
  Closed, start_streaming-Keeps, stop_streaming-Keeps, stream_start-Keeps, stream_stop-Keeps,
  graph_round-Keeps, subscribe_feature-Keeps, unsubscribe_feature-Keeps, subscribe_event-Keeps,
  unsubscribe_event-Keeps,
}

-- What a node runs with.
pub record Host (api : Api) : Type 0 where
  pub stream : Parameters
  pub camera : OpenParameters
  pub fs : FileSystem api.Dev
  pub callbacks : Callbacks

-- A request to a service, a change of the parameters, a call of a publisher of events, or a round of
-- the thread that follows the subscribers. The thread holds no lock between the parts of a round, so those
-- that change something are steps of their own too: its starts and stops, whenever it makes them, and
-- the writes to its two flags.
pub data Service (F : Type 0) : Type 0 where
  feature : Request F → ℕ → Service F
  start_service stop_service : Service F
  subscribers : ℕ → ℕ → Service F
  graph_start graph_stop graph_forget_stop graph_forget_restart : Service F
  load_settings save_settings : String → Service F
  read_status read_connection : Service F
  set_parameters : List String → Service F
  feature_subscribed feature_unsubscribed : String → Service F
  event_subscribed event_unsubscribed : String → Service F

-- A service, a notice of the library that a camera came or went, or the run of a thread that such a
-- notice has started.
pub data Event (F : Type 0) : Type 0 where
  service : Service F → Event F
  discovery : Handle → Event F
  reconnect_thread : Event F

module _ (api : Api) (host : Host api) where
  unfoldable pub run_service : Service api.Float → NodeWorld api.Dev → NodeWorld api.Dev
  run_service (feature r id) w = (handle api r id w).1
  run_service start_service w = (stream_start api host.stream w).1
  run_service stop_service w = (stream_stop api host.stream w).1
  run_service (subscribers last current) w = (graph_round api host.stream last current w).1
  run_service graph_start w = (Stream.start_streaming api host.stream w).1
  run_service graph_stop w = (Stream.stop_streaming api host.stream w).1
  run_service graph_forget_stop w = record w {
    node = record w.node { stream_stopped_by_service = false };
  }
  run_service graph_forget_restart w = record w {
    node = record w.node { stream_restart_required = false };
  }
  run_service (load_settings file) w = (settings_load_service api host.fs file w).1
  run_service (save_settings file) w = (settings_save_service api host.fs file w).1
  run_service read_status w = (status api w).1
  run_service read_connection w = (connection_status w).1
  run_service (set_parameters names) w = (on_set_parameters names w).1
  run_service (feature_subscribed name) w = (subscribe_feature api host.callbacks name w).1
  run_service (feature_unsubscribed name) w = (unsubscribe_feature api host.callbacks name w).1
  run_service (event_subscribed name) w = (subscribe_event api host.callbacks name w).1
  run_service (event_unsubscribed name) w = (unsubscribe_event api host.callbacks name w).1

  -- Nothing happens where no thread waits.
  unfoldable pub run_thread : ℕ → NodeWorld api.Dev → NodeWorld api.Dev
  run_thread zero w = w
  run_thread (suc n) w =
      (reconnect api host.fs host.camera (record w { node = record w.node { reconnects = n } })).1

  unfoldable pub run_event : Event api.Float → NodeWorld api.Dev → NodeWorld api.Dev
  unfolding run_service run_thread
  run_event (service s) w = run_service s w
  run_event (discovery handle) w = (on_camera_discovery_callback api handle w).1
  run_event reconnect_thread w = run_thread w.node.reconnects w

  abbrev pub run_events : List (Event api.Float) → NodeWorld api.Dev → NodeWorld api.Dev
  run_events es w = foldl (λ w e. run_event e w) w es

module _ {I : Node → Type 0} {D : Type 0} where
  pub set_parameters-Keeps : (names : List String) → Keeps {D = D} I (on_set_parameters names)
  unfolding on_set_parameters
  set_parameters-Keeps [] = pure-Keeps true
  set_parameters-Keeps (name ∷ names) =
      choose-Keeps (str_eq name "buffer_count") _ _
        (bind-Keeps _ _ (ask-Keeps _)
          λ streaming. choose-Keeps streaming _ _ (pure-Keeps false) (set_parameters-Keeps names))
        (set_parameters-Keeps names)

-- Every service keeps an invariant that the calls on the camera keep.
module _ (api : Api) (host : Host api) {I : Node → Type 0} (closed : Closed api host.stream I) where
  pub run_service-Closed :
      (s : Service api.Float) (w : NodeWorld api.Dev) → I w.node → I (run_service api host s w).node
  unfolding run_service settings_load_service settings_save_service status connection_status gets
  run_service-Closed (feature r id) w h = (handle-Keeps {I = I} api r id).at w h
  run_service-Closed start_service w h = (stream_start-Keeps api host.stream closed).at w h
  run_service-Closed stop_service w h = (stream_stop-Keeps api host.stream closed).at w h
  run_service-Closed (subscribers last current) w h =
      (graph_round-Keeps api host.stream closed last current).at w h
  run_service-Closed graph_start w h = (start_streaming-Keeps api host.stream closed).at w h
  run_service-Closed graph_stop w h = (stop_streaming-Keeps api host.stream closed).at w h
  run_service-Closed graph_forget_stop w h = closed.stopped_flag w.node false h
  run_service-Closed graph_forget_restart w h = closed.restart_flag w.node false h
  run_service-Closed (load_settings file) w h =
      (camera_service-Keeps {I = I} (settings_load api host.fs file)).at w h
  run_service-Closed (save_settings file) w h =
      (camera_service-Keeps {I = I} (settings_save api host.fs file)).at w h
  run_service-Closed read_status w h = (camera_service-Keeps {I = I} (camera_info_get api)).at w h
  run_service-Closed read_connection w h = h
  run_service-Closed (set_parameters names) w h = (set_parameters-Keeps {I = I} names).at w h
  run_service-Closed (feature_subscribed name) w h =
      (subscribe_feature-Keeps api host.callbacks closed name).at w h
  run_service-Closed (feature_unsubscribed name) w h =
      (unsubscribe_feature-Keeps api host.callbacks closed name).at w h
  run_service-Closed (event_subscribed name) w h =
      (subscribe_event-Keeps api host.callbacks closed name).at w h
  run_service-Closed (event_unsubscribed name) w h =
      (unsubscribe_event-Keeps api host.callbacks closed name).at w h
