-- ===== src/Node/Handlers.antt =====
-- The handlers of the node keep every invariant that the calls on the camera keep.
use vimbax_ros2_driver.Common.{
  ℕ, ◌≡◌, refl, String, Bool, true, false, Option, some, List, Act, pure, attempt, ◌>>=◌, ltb, ◌==◌,
  ◌&&◌, ◌||◌, not, if◌then◌else◌,
}
use vimbax_ros2_driver.Error.{not_found}
use vimbax_ros2_driver.Vmbc.{Api}
use vimbax_ros2_driver.Camera.{Camera, update, on_dev}
use vimbax_ros2_driver.Camera.Invalidation.{
  feature_invalidation_register, feature_invalidation_unregister,
}
use vimbax_ros2_driver.Camera.Stream as CameraStream
use vimbax_ros2_driver.Camera.Stream.Wedged.{StreamCall, run_call, start, stop}
use vimbax_ros2_driver.Node.{Node, NodeWorld, refusal, ask}
use vimbax_ros2_driver.Node.Keeps.{
  Keeps, bind-Keeps, pure-Keeps, gets-Keeps, attempt-Keeps, give-Keeps, tell-Keeps, answer-Keeps,
  ask-Keeps, if-Keeps, choose-Keeps, fail-Keeps, set_node-Keeps,
}
use vimbax_ros2_driver.Node.Owners.{
  Callbacks, msg_of, notify, subscribe_feature, unsubscribe_feature, subscribe_event,
  unsubscribe_event, event_feature_name,
}
use vimbax_ros2_driver.Node.Stream
use vimbax_ros2_driver.Node.Stream.{
  Parameters, set_node, is_streaming, streaming_of, stream_start, stream_stop, served, try_if,
  subscribed, deserted, restart, follow, graph_round,
}

-- What the node asks of its camera.
abbrev pub Asks : Parameters → StreamCall → Type 0
Asks parameters (start n cb acquisition) =
    (n ≡ parameters.buffer_count) × (cb ≡ parameters.on_frame)
Asks parameters stop = Unit {0}

-- An invariant that a start or a stop of the stream, a change of the callbacks and a write to three of
-- the node's members keep.
pub record Closed (api : Api) (parameters : Parameters) (I : Node → Type 0) : Type 0 where
  pub calls :
      (call : StreamCall) (n : Node) (c : Camera) (d : api.Dev)
      → Asks parameters call
      → n.camera ≡ some c
      → I n
      → I (record n { camera = some (run_call api call (record { camera = c; dev = d })).1.camera })
  pub callbacks :
      (n : Node) (c : Camera) (m : List (String × ℕ))
      → n.camera ≡ some c
      → I n
      → I (record n { camera = some (record c { invalidation_callbacks = m }) })
  pub stopped_flag : (n : Node) (b : Bool) → I n → I (record n { stream_stopped_by_service = b })
  pub restart_flag : (n : Node) (b : Bool) → I n → I (record n { stream_restart_required = b })
  pub last_frame :
      (n : Node) → I n → I (record n { last_frame_id = vimbax_ros2_driver.Common.none })

module _ (api : Api) (parameters : Parameters) {I : Node → Type 0}
    (closed : Closed api parameters I) where
  pub start_streaming-Keeps : Keeps I (Stream.start_streaming api parameters)
  unfolding Stream.start_streaming run_call
  start_streaming-Keeps =
      if-Keeps (λ w. w.node.is_available) _ _
        (tell-Keeps
          (CameraStream.start_streaming api parameters.buffer_count parameters.on_frame true)
          (λ w c e h.
            closed.calls (start parameters.buffer_count parameters.on_frame true) w.node c w.dev
              (refl, refl) e h))
        (fail-Keeps not_found)

  pub stop_streaming-Keeps : Keeps I (Stream.stop_streaming api parameters)
  unfolding Stream.stop_streaming Stream.stop_and_forget run_call
  stop_streaming-Keeps =
      if-Keeps (λ w. w.node.is_available) _ _
        (bind-Keeps _ _
          (attempt-Keeps _ (
            tell-Keeps (CameraStream.stop_streaming api)
              (λ w c e h. closed.calls stop w.node c w.dev tt e h)))
          λ res. bind-Keeps _ _ (set_node-Keeps _ closed.last_frame) λ _. give-Keeps res)
        (fail-Keeps not_found)

  served-Keeps :
      (m : Act (NodeWorld api.Dev) (Unit {0})) (flag : Bool)
      → Keeps I m
      → Keeps I (served api parameters m flag)
  served-Keeps m flag h =
      bind-Keeps _ _ (record { at = λ w s. answer-Keeps I (m w) (h.at w s) })
        λ response.
          bind-Keeps _ _ (set_node-Keeps _ (λ n. closed.stopped_flag n flag))
            λ _. pure-Keeps response

  pub stream_start-Keeps : Keeps I (stream_start api parameters)
  unfolding stream_start
  stream_start-Keeps =
      if-Keeps (λ w. w.node.is_available)
        (served api parameters (Stream.start_streaming api parameters) false)
        (pure (refusal not_found)) (served-Keeps _ _ start_streaming-Keeps) (pure-Keeps _)

  pub stream_stop-Keeps : Keeps I (stream_stop api parameters)
  unfolding stream_stop
  stream_stop-Keeps =
      if-Keeps (λ w. w.node.is_available)
        (served api parameters (Stream.stop_streaming api parameters) true)
        (pure (refusal not_found)) (served-Keeps _ _ stop_streaming-Keeps) (pure-Keeps _)

  after_start-Keeps :
      (f : Node → Node)
      → ((n : Node) → I n → I (f n))
      → Keeps I (attempt (Stream.start_streaming api parameters) >>= λ res. set_node f)
  after_start-Keeps f k =
      bind-Keeps _ _ (attempt-Keeps _ start_streaming-Keeps) λ res. set_node-Keeps f k

  subscribed-Keeps : (more : Bool) → Keeps I (subscribed api parameters more)
  unfolding subscribed
  subscribed-Keeps more =
      if-Keeps
        (λ w.
          parameters.autostream
          && not (streaming_of w.node.camera)
          && (not w.node.stream_stopped_by_service || more))
        (attempt (Stream.start_streaming api parameters) >>= λ res.
          set_node (λ n. record n { stream_stopped_by_service = false }))
        _ (after_start-Keeps _ (λ n. closed.stopped_flag n false)) (record { at = λ w h. h })

  try_if-Keeps :
      (b : Bool) (m : Act (NodeWorld api.Dev) (Unit {0}))
      → Keeps I m
      → Keeps I (try_if api parameters b m)
  try_if-Keeps true m h = bind-Keeps _ _ (attempt-Keeps _ h) λ res. pure-Keeps tt
  try_if-Keeps false m h = pure-Keeps tt

  deserted-Keeps : Keeps I (deserted api parameters)
  unfolding deserted is_streaming
  deserted-Keeps = bind-Keeps _ _ (gets-Keeps _) λ streaming.
      bind-Keeps _ _ (try_if-Keeps (parameters.autostream && streaming) _ stop_streaming-Keeps)
        λ _. set_node-Keeps _ (λ n. closed.stopped_flag n false)

  restart-Keeps : Keeps I (restart api parameters)
  unfolding restart
  restart-Keeps =
      if-Keeps (λ w. w.node.stream_restart_required)
        (attempt (Stream.start_streaming api parameters) >>= λ res.
          set_node (λ n. record n { stream_restart_required = false }))
        _ (after_start-Keeps _ (λ n. closed.restart_flag n false)) (record { at = λ w h. h })

  follow-Keeps : (last current : ℕ) → Keeps I (follow api parameters last current)
  unfolding follow
  follow-Keeps last current =
      choose-Keeps (ltb last current) _ _
        (bind-Keeps _ _ (subscribed-Keeps (ltb last current)) λ _. pure-Keeps current)
        (choose-Keeps (ltb current last && (current == 0)) _ _
          (bind-Keeps _ _ deserted-Keeps λ _. pure-Keeps current) (pure-Keeps current))

  pub graph_round-Keeps : (last current : ℕ) → Keeps I (graph_round api parameters last current)
  unfolding graph_round
  graph_round-Keeps last current = bind-Keeps _ _ restart-Keeps λ _.
      bind-Keeps _ _ (gets-Keeps _)
        λ available. choose-Keeps available _ _ (follow-Keeps last current) (pure-Keeps last)

module _ (api : Api) (callbacks : Callbacks) {parameters : Parameters} {I : Node → Type 0}
    (closed : Closed api parameters I) where
  register-Keeps :
      (name : String) (callback : ℕ)
      → Keeps I (vimbax_ros2_driver.Node.tell (feature_invalidation_register api name callback))
  unfolding feature_invalidation_register update on_dev ◌>>=◌
  register-Keeps name callback =
      tell-Keeps (feature_invalidation_register api name callback)
        (λ w c e h. closed.callbacks w.node c _ e h)

  unregister-Keeps :
      (name : String)
      → Keeps I (vimbax_ros2_driver.Node.tell (feature_invalidation_unregister api name))
  unfolding feature_invalidation_unregister update on_dev ◌>>=◌
  unregister-Keeps name =
      tell-Keeps (feature_invalidation_unregister api name)
        (λ w c e h. closed.callbacks w.node c _ e h)

  notify-Keeps : (name mode : String) → Keeps I (notify api callbacks name mode)
  unfolding notify
  notify-Keeps name mode = bind-Keeps _ _ (ask-Keeps _) λ _. ask-Keeps _

  pub subscribe_feature-Keeps : (name : String) → Keeps I (subscribe_feature api callbacks name)
  unfolding subscribe_feature
  subscribe_feature-Keeps name =
      if-Keeps (λ w. w.node.is_available) _ _
        (bind-Keeps _ _ (attempt-Keeps _ (register-Keeps name callbacks.on_feature))
          λ res. pure-Keeps (msg_of res))
        (record { at = λ w h. h })

  pub unsubscribe_feature-Keeps : (name : String) → Keeps I (unsubscribe_feature api callbacks name)
  unfolding unsubscribe_feature
  unsubscribe_feature-Keeps name =
      bind-Keeps _ _ (attempt-Keeps _ (unregister-Keeps name)) λ res. pure-Keeps tt

  pub subscribe_event-Keeps : (name : String) → Keeps I (subscribe_event api callbacks name)
  unfolding subscribe_event
  subscribe_event-Keeps name =
      if-Keeps (λ w. w.node.is_available) _ _
        (bind-Keeps _ _
          (attempt-Keeps _ (
            bind-Keeps _ _ (notify-Keeps name "On")
              λ _. register-Keeps (event_feature_name name) (callbacks.on_event name)))
          λ res. pure-Keeps (msg_of res))
        (record { at = λ w h. h })

  pub unsubscribe_event-Keeps : (name : String) → Keeps I (unsubscribe_event api callbacks name)
  unfolding unsubscribe_event
  unsubscribe_event-Keeps name =
      if-Keeps (λ w. w.node.is_available) _ _
        (bind-Keeps _ _ (attempt-Keeps _ (unregister-Keeps (event_feature_name name)))
          λ res. bind-Keeps _ _ (attempt-Keeps _ (notify-Keeps name "Off")) λ off. pure-Keeps tt)
        (record { at = λ w h. h })
