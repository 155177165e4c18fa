-- ===== src/Node/Subscribers.antt =====
-- How the stream follows the subscribers of the image topic.
use vimbax_ros2_driver.Common.{
  ℕ, ◌<◌, ◌≡◌, refl, Bool, true, false, Option, none, some, Exit, value, error, aborted, Act, pure,
  attempt, continue, ◌>>=◌, ltb, ◌||◌, not, arith, ◌⊎◌, inl, inr, [], give,
}
use vimbax_ros2_driver.Vmbc.{Api}
use vimbax_ros2_driver.Camera.{Camera, World, StreamState, stopped, active}
use vimbax_ros2_driver.Camera.Triple.{Leaves}
use vimbax_ros2_driver.Camera.Stream as CameraStream
use vimbax_ros2_driver.Camera.Stream.Outcomes.{
  Starting, Stopping, Streaming, Idle, start_streaming-Streaming, stop_streaming-Idle,
}
use vimbax_ros2_driver.Node.{Node, NodeWorld, tell}
use vimbax_ros2_driver.Node.Stream
use vimbax_ros2_driver.Node.Stream.{
  streaming_of, try_if, Parameters, set_node, graph_round, restart, follow, subscribed, deserted,
}

-- A node with an available camera, in the given stream state, and no restart to make up for.
pub record Attended {D : Type 0} (c : Camera) (s : StreamState) (w : NodeWorld D) : Type 0 where
  pub camera : w.node.camera ≡ some c
  pub available : w.node.is_available ≡ true
  pub settled : w.node.stream_restart_required ≡ false
  pub state : c.stream_state ≡ s

-- The node's camera is one of the kind.
abbrev pub CameraIs : (Camera → Type 0) → Option Camera → Type 0
CameraIs P none = ⊥
CameraIs P (some c) = P c

-- Either a stream to the node's callback, or a start that failed.
abbrev pub Started : Parameters → Camera → Type 0
Started p c = Streaming p.buffer_count p.on_frame c ⊎ Starting c

-- Either an idle camera, or a stop that failed.
abbrev pub Stopped : Camera → Type 0
Stopped c = Idle [] c ⊎ Stopping c

module _ (api : Api) (p : Parameters) (c : Camera) where
  -- The call that starts the stream, whatever it returns, and what the round does behind it.
  after_start :
      (r : Exit (Unit {0}) × World api.Dev) (n : Node) (current : ℕ)
      → Leaves Starting (Streaming p.buffer_count p.on_frame) r
      → CameraIs
          (Started p)
          (continue
            ((attempt {S = NodeWorld api.Dev} (λ w.
                  (r.0, record { node = record n { camera = some r.1.camera }; dev = r.1.dev }))
                >>= λ res. set_node (λ n. record n { stream_stopped_by_service = false }))
              (record { node = n; dev = r.1.dev }))
            (λ _. pure current)).1.node.camera
  unfolding ◌>>=◌ set_node
  after_start (value a, w) n current h = inl h
  after_start (error e, w) n current h = inr h
  after_start (aborted x, w) n current h = inr h

  always : (b : Bool) → (not b || true) ≡ true
  always true = refl
  always false = refl

  active-is_streaming : c.stream_state ≡ active → vimbax_ros2_driver.Camera.is_streaming c ≡ true
  unfolding vimbax_ros2_driver.Camera.is_streaming
  active-is_streaming e = rw e refl

  stopped-is_streaming : c.stream_state ≡ stopped → vimbax_ros2_driver.Camera.is_streaming c ≡ false
  unfolding vimbax_ros2_driver.Camera.is_streaming
  stopped-is_streaming e = rw e refl

  -- The same for the call that stops it.
  after_stop :
      (r : Exit (Unit {0}) × World api.Dev) (n : Node) (current : ℕ)
      → Leaves Stopping (Idle []) r
      → let called : Act (NodeWorld api.Dev) (Unit {0}) =
          λ w. (r.0, record { node = record n { camera = some r.1.camera }; dev = r.1.dev }) in
        let forgets : Act (NodeWorld api.Dev) (Unit {0}) = attempt called >>= λ res.
        (set_node (λ n. record n { last_frame_id = none }) >>= λ _. give res) in
        let tried : Act (NodeWorld api.Dev) (Unit {0}) = attempt forgets >>= λ res. pure tt in
        let lowered : Act (NodeWorld api.Dev) (Unit {0}) =
          tried >>= λ _. set_node (λ n. record n { stream_stopped_by_service = false }) in
        CameraIs Stopped
          ((lowered >>= λ _. pure current) (record { node = n; dev = r.1.dev })).1.node.camera
  unfolding ◌>>=◌ set_node
  after_stop (value a, w) n current h = inl h
  after_stop (error e, w) n current h = inr h
  after_stop (aborted x, w) n current h = inr h

-- While the camera is available and stopped, no restart of the stream is due (stream_restart_required_ is
-- false), and autostart is on, a round that finds more subscribers than the round before, and that no
-- other thread interrupts, starts the stream, also where a service stopped it: afterwards the camera
-- streams to the node's callback with the configured number of frames, or the start has failed.
pub graph_round-open :
    (api : Api) (p : Parameters) (c : Camera) (last current : ℕ) (w : NodeWorld api.Dev)
    → Attended c stopped w
    → p.autostream ≡ true
    → last < current
    → CameraIs (Started p) (graph_round api p last current w).1.node.camera
unfolding graph_round restart follow subscribed ◌>>=◌ tell Stream.start_streaming set_node
graph_round-open api p c last current w a e h =
    let l : ltb last current ≡ true = ground arith in
    simp
      (
        a.settled,
        a.available,
        l,
        a.camera,
        e,
        stopped-is_streaming api p c a.state,
        always api p c w.node.stream_stopped_by_service,
      )
      (after_start api p c
        (CameraStream.start_streaming api p.buffer_count p.on_frame true
          (record { camera = c; dev = w.dev }))
        (record w.node { is_available = true; stream_restart_required = false }) current
        (start_streaming-Streaming api p.buffer_count p.on_frame true
          (record { camera = c; dev = w.dev }) a.state))

-- While the camera is available and streaming, no restart of the stream is due (stream_restart_required_
-- is false), and autostart is on, a round that finds no subscriber where the round before found some, and
-- that no other thread interrupts, stops the stream: afterwards the camera is stopped, without
-- frames, thread and work left, or the stop has failed.
pub graph_round-close :
    (api : Api) (p : Parameters) (c : Camera) (last : ℕ) (w : NodeWorld api.Dev)
    → Attended c active w
    → (n cb : ℕ) → Streaming n cb c
    → p.autostream ≡ true
    → 0 < last
    → CameraIs Stopped (graph_round api p last 0 w).1.node.camera
unfolding graph_round restart follow deserted ◌>>=◌ tell Stream.stop_streaming
    Stream.stop_and_forget set_node Stream.is_streaming
graph_round-close api p c last w a n cb s e h =
    let l : ltb last 0 ≡ false = ground arith in
    let k : ltb 0 last ≡ true = ground arith in
    simp (a.settled, a.available, l, k, a.camera, e, active-is_streaming api p c a.state)
      (after_stop api p c (CameraStream.stop_streaming api (record { camera = c; dev = w.dev }))
        (record w.node { is_available = true; stream_restart_required = false }) 0
        (stop_streaming-Idle api n cb (record { camera = c; dev = w.dev }) s))
