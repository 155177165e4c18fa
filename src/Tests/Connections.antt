-- ===== src/Tests/Connections.antt =====
-- A node that loses its camera and opens it again.
use vimbax_ros2_driver.Common.{
  ℕ, ◌≡◌, ◌≢◌, pure, refl, true, false, none, List, [], ◌∷◌, aborted, null_dereference, value,
  ◌>>=◌, inl,
}
use vimbax_ros2_driver.Error.{no_error, invalid_call}
use vimbax_ros2_driver.Vmbc.{Api}
use vimbax_ros2_driver.Camera.{remote_device}
use vimbax_ros2_driver.Address.{decode_ip_addr}
use vimbax_ros2_driver.Address.Mac.{decode_mac_addr}
use vimbax_ros2_driver.Camera.Open
use vimbax_ros2_driver.Camera.Open.{open_by_name}
use vimbax_ros2_driver.Events.{subscribe, count_of}
use vimbax_ros2_driver.Node.{NodeWorld, map_module}
use vimbax_ros2_driver.Node.Services.{handle, request_int_get}
use vimbax_ros2_driver.Node.Replies.{Answers}
use vimbax_ros2_driver.Node.Steps.{
  Host, Event, service, discovery, reconnect_thread, feature, stop_service, subscribers,
  event_subscribed, run_event, run_events,
}
use vimbax_ros2_driver.Node.Sessions.{SessionOf, run_events-SessionOf}
use vimbax_ros2_driver.Node.Connection.Holds.{
  Attached, AllInTurn, run_events-Attached, handle-run_events,
}
use vimbax_ros2_driver.Node.Connection.Overlap.{reconnect_thread-loses_camera}
use vimbax_ros2_driver.Node.Connection.Silent.{callback_of, reconnect_thread-drops_callbacks}
use vimbax_ros2_driver.Node.Start.{Objects, new_node, initialize}
use vimbax_ros2_driver.Node.Start.Ready.{initialize-Ready}
use vimbax_ros2_driver.Tests.{working, idle-Session, working-ClockLaws}
use vimbax_ros2_driver.Tests.Nodes.{idle_node, lost_node, defaults}

abbrev pub host : Host working
host = record {
  stream = defaults;
  camera = record { camera_id = "DEV_1"; settings_file = "" };
  fs = record { exists = λ d path. false; extension = λ path. ""; parent_path = λ path. "" };
  callbacks = record { on_feature = 2; on_event = λ name. 3 };
}

-- The services of a node, then a notice.
abbrev some_events : List (Event ℕ)
some_events =
    service (subscribers 0 1)
    ∷ service (feature (request_int_get "Width") 0)
    ∷ service (event_subscribed "ExposureEnd")
    ∷ service stop_service
    ∷ reconnect_thread
    ∷ []

run_events-SessionOf_example :
    SessionOf (run_events working host (discovery 1 ∷ some_events) idle_node).node.camera
run_events-SessionOf_example =
    run_events-SessionOf working host (discovery 1 ∷ some_events) idle_node idle-Session

idle_node-Attached : Attached idle_node.node
idle_node-Attached = record { has_camera = λ a. cc; alone = λ a. refl; single = inl refl }

some_events-InTurn : AllInTurn working host (discovery 1 ∷ some_events) idle_node
some_events-InTurn = (refl, (tt, (tt, (tt, (tt, (tt, tt))))))

run_events-Attached_example :
    Attached (run_events working host (discovery 1 ∷ some_events) idle_node).node
run_events-Attached_example =
    run_events-Attached working host (discovery 1 ∷ some_events) idle_node some_events-InTurn
      idle_node-Attached

handle-run_events_example : Answers (
    handle working
      (request_int_get "Width")
      0
      (run_events working host (discovery 1 ∷ some_events) idle_node))
handle-run_events_example =
    handle-run_events working host (discovery 1 ∷ some_events) idle_node some_events-InTurn
      idle_node-Attached working-ClockLaws (request_int_get "Width") 0

-- A library that refuses to open a camera.
abbrev refusing : Api
refusing = record working { vmb_camera_open = λ id d. (invalid_call, 0, d) }

abbrev refusing_host : Host refusing
refusing_host = record {
  stream = host.stream;
  camera = host.camera;
  fs = host.fs;
  callbacks = host.callbacks;
}

-- A node whose camera a thread has opened, and a second thread.
abbrev twice_node : NodeWorld ℕ
twice_node = record idle_node { node = record idle_node.node { reconnects = 1 } }

refused : (open_by_name refusing "DEV_1" 0).0 ≡ value none
unfolding open_by_name Open.interface_list_get Open.open_named Open.open_unlisted Open.open_listed
    Open.open_camera Open.available_cameras Open.get_camera_id_from_addr Open.check_addr
    decode_ip_addr decode_mac_addr Open.find_by ◌>>=◌
refused = refl

reconnect_thread-loses_camera_example :
    ((run_event refusing refusing_host reconnect_thread twice_node).node.camera ≡ none)
    × ((run_event refusing refusing_host reconnect_thread twice_node).node.is_available ≡ true)
    × ((handle refusing
          (request_int_get "Width")
          0
          (run_event refusing refusing_host reconnect_thread twice_node)).0
        ≡ aborted null_dereference)
unfolding map_module
reconnect_thread-loses_camera_example =
    reconnect_thread-loses_camera refusing refusing_host twice_node 0 refl refl refused
      (request_int_get "Width") 0 remote_device refl

-- A node that has lost its camera, and the thread that looks for it.
abbrev waiting_node : NodeWorld ℕ
waiting_node = record lost_node { node = record lost_node.node { reconnects = 1 } }

reconnect_thread-drops_callbacks_example :
    (callback_of (run_event working host reconnect_thread waiting_node).node.camera "Width" ≡ none)
    × ((subscribe (λ name. no_error) "Width" (("Width", 1) ∷ [])).calls ≡ [])
unfolding count_of
reconnect_thread-drops_callbacks_example =
    reconnect_thread-drops_callbacks working host waiting_node 0 1 (("Width", 1) ∷ [])
      (λ name. no_error) "Width" refl refl refl

-- Nothing that ROS makes is missing.
abbrev complete : Objects
complete = record {
  node = true;
  api = true;
  feature_callback_group = true;
  settings_load_save_callback_group = true;
  status_callback_group = true;
  stream_start_stop_callback_group = true;
  camera_publisher = true;
  feature_services = true;
  settings_services = true;
  status_services = true;
  stream_services = true;
  feature_invalidation_event_publisher = true;
  event_event_publisher = true;
  graph_notify_thread = true;
}

initialize-Ready_example :
    let (r, w) =
      initialize working host.fs host.camera complete (record { node = new_node; dev = 0 }) in
    Attached w.node × (r ≡ value true → (w.node.is_available ≡ true) × (w.node.camera ≢ none))
initialize-Ready_example = initialize-Ready working host.fs host.camera complete 0

-- Without the library nothing is opened.
no_library :
    initialize working host.fs host.camera
      (record complete { api = false })
      (record { node = new_node; dev = 0 })
    ≡ (value false, record { node = new_node; dev = 0 })
unfolding initialize pure
no_library = refl
