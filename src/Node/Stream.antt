-- ===== src/Node/Stream.antt =====
-- vimbax_camera_node.cpp: starting and stopping the stream, by the node itself, by its two services,
-- and by the thread that follows the number of subscribers of the image topic.
use vimbax_ros2_driver.Common.{
  ℕ, Bool, true, false, Option, none, some, Act, Exit, value, error, aborted, Result, pure, fail,
  modify, gets, attempt, ◌>>=◌, ◌>>◌, ltb, ◌==◌, ◌&&◌, ◌||◌, not, if◌then◌else◌,
}
use vimbax_ros2_driver.Error.{not_found}
use vimbax_ros2_driver.Vmbc.{Api}
use vimbax_ros2_driver.Camera.{Camera}
use vimbax_ros2_driver.Camera.Stream
use vimbax_ros2_driver.Node.{Node, NodeWorld, Response, tell, answer, refusal}

-- The parameters that the stream depends on, and the number that names the frame callback.
pub record Parameters : Type 0 where
  pub buffer_count : ℕ
  pub autostream : Bool
  pub on_frame : ℕ

-- `(!camera_) ? false : camera_->is_streaming()`
abbrev pub streaming_of : Option Camera → Bool
streaming_of none = false
streaming_of (some c) = vimbax_ros2_driver.Camera.is_streaming c

module _ {D : Type 0} where
  unfoldable pub set_node : (Node → Node) → Act (NodeWorld D) (Unit {0})
  set_node f w = (Exit.value tt, record w { node = f w.node })

  unfoldable pub is_streaming : Act (NodeWorld D) Bool
  is_streaming = gets (λ w. streaming_of w.node.camera)

module _ (api : Api) (parameters : Parameters) where
  unfoldable pub start_streaming : Act (NodeWorld api.Dev) (Unit {0})
  unfolding tell
  start_streaming w =
      if w.node.is_available
      then tell (Stream.start_streaming api parameters.buffer_count parameters.on_frame true) w
      else fail not_found w

  -- The last frame's number is forgotten whatever the camera returns.
  unfoldable pub stop_and_forget : Act (NodeWorld api.Dev) (Unit {0})
  stop_and_forget = do
    res ← attempt (tell (Stream.stop_streaming api))
    set_node (λ n. record n { last_frame_id = none })
    vimbax_ros2_driver.Common.give res

  unfoldable pub stop_streaming : Act (NodeWorld api.Dev) (Unit {0})
  unfolding stop_and_forget
  stop_streaming w = if w.node.is_available then stop_and_forget w else fail not_found w

  abbrev pub served :
      Act (NodeWorld api.Dev) (Unit {0}) → Bool → Act (NodeWorld api.Dev) (Response (Unit {0}))
  served m flag = do
    response ← (λ w. answer (m w))
    set_node (λ n. record n { stream_stopped_by_service = flag })
    pure response

  unfoldable pub stream_start : Act (NodeWorld api.Dev) (Response (Unit {0}))
  stream_start w =
      if w.node.is_available then served start_streaming false w else pure (refusal not_found) w

  unfoldable pub stream_stop : Act (NodeWorld api.Dev) (Response (Unit {0}))
  stream_stop w =
      if w.node.is_available then served stop_streaming true w else pure (refusal not_found) w

  -- A call whose result is thrown away, if the test holds.
  abbrev pub try_if : Bool → Act (NodeWorld api.Dev) (Unit {0}) → Act (NodeWorld api.Dev) (Unit {0})
  try_if true m = do res ← attempt m; pure tt
  try_if false m = pure tt

  -- More subscribers than before.
  unfoldable pub subscribed : Bool → Act (NodeWorld api.Dev) (Unit {0})
  subscribed more w =
      let go =
        parameters.autostream
        && not (streaming_of w.node.camera)
        && (not w.node.stream_stopped_by_service || more) in
      if go
      then (do
        res ← attempt start_streaming
        set_node (λ n. record n { stream_stopped_by_service = false }))
          w
      else (Exit.value tt, w)

  -- No subscriber left.
  unfoldable pub deserted : Act (NodeWorld api.Dev) (Unit {0})
  deserted = do
    streaming ← is_streaming
    try_if (parameters.autostream && streaming) stop_streaming
    set_node (λ n. record n { stream_stopped_by_service = false })

  unfoldable pub restart : Act (NodeWorld api.Dev) (Unit {0})
  restart w =
      if w.node.stream_restart_required
      then (do
        res ← attempt start_streaming
        set_node (λ n. record n { stream_restart_required = false }))
          w
      else (Exit.value tt, w)

  -- The change of the number of subscribers from `last` to `current`.
  unfoldable pub follow : ℕ → ℕ → Act (NodeWorld api.Dev) ℕ
  unfolding subscribed deserted
  follow last current =
      if ltb last current
      then (do subscribed (ltb last current); pure current)
      else if ltb current last && (current == 0)
      then (do deserted; pure current)
      else pure current

  -- One round of the thread's loop that no other thread interrupts: the number that it keeps for the
  -- next round.
  unfoldable pub graph_round : ℕ → ℕ → Act (NodeWorld api.Dev) ℕ
  unfolding restart follow
  graph_round last current = do
    restart
    available ← gets (λ w. w.node.is_available)
    if available then follow last current else pure last
