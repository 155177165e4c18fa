-- ===== src/Tests/Nodes.antt =====
-- Runs of the node on the small library.
use vimbax_ros2_driver.Common.{ℕ, refl, true, false, none, some, arith}
use vimbax_ros2_driver.Camera.{Camera}
use vimbax_ros2_driver.Node.{Node, NodeWorld}
use vimbax_ros2_driver.Node.Services.{handle, request_int_get}
use vimbax_ros2_driver.Node.Stream.{Parameters, graph_round}
use vimbax_ros2_driver.Node.Replies.{Answers, HasCamera}
use vimbax_ros2_driver.Node.Answers.{handle-Answers}
use vimbax_ros2_driver.Node.Subscribers.{
  CameraIs, Started, Stopped, graph_round-open, graph_round-close,
}
use vimbax_ros2_driver.Tests.{working, idle_camera, busy_camera, busy_Streaming, working-ClockLaws}

abbrev pub node_with : Camera → Node
node_with c = record {
  camera = some c;
  is_available = true;
  stream_stopped_by_service = true;
  stream_restart_required = false;
  last_frame_id = none;
  last_camera_id = "DEV_1";
  restart_pending = false;
  reconnects = 0;
}

abbrev pub idle_node : NodeWorld ℕ
idle_node = record { node = node_with idle_camera; dev = 0 }

abbrev pub busy_node : NodeWorld ℕ
busy_node = record { node = node_with busy_camera; dev = 0 }

abbrev pub lost_node : NodeWorld ℕ
lost_node = record { node = record idle_node.node { camera = none; is_available = false }; dev = 0 }

abbrev pub defaults : Parameters
defaults = record { buffer_count = 7; autostream = true; on_frame = 1 }

idle_node-HasCamera : HasCamera idle_node
idle_node-HasCamera e = cc

handle-Answers_example : Answers (handle working (request_int_get "Width") 0 idle_node)
handle-Answers_example =
    handle-Answers working working-ClockLaws (request_int_get "Width") 0 idle_node
      idle_node-HasCamera

graph_round-open_example :
    CameraIs (Started defaults) (graph_round working defaults 0 1 idle_node).1.node.camera
graph_round-open_example =
    graph_round-open working defaults idle_camera 0 1 idle_node
      (record { camera = refl; available = refl; settled = refl; state = refl }) refl (omega arith)

graph_round-close_example :
    CameraIs Stopped (graph_round working defaults 2 0 busy_node).1.node.camera
graph_round-close_example =
    graph_round-close working defaults busy_camera 2 busy_node
      (record { camera = refl; available = refl; settled = refl; state = refl }) 1 7 busy_Streaming
      refl (omega arith)
