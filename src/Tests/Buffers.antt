-- ===== src/Tests/Buffers.antt =====
-- Changes of the parameters before and while a node streams.
use vimbax_ros2_driver.Common.{
  ℕ, ◌≤◌, ◌≡◌, refl, Bool, true, false, Option, none, some, List, [], ◌∷◌, ℤ, pos, negsuc, arith,
  length, replicate, leb, pure, gets, ◌>>=◌, ◌&&◌, not,
}
use vimbax_ros2_driver.Camera.{Camera, is_streaming}
use vimbax_ros2_driver.Camera.Stream.Sessions.{streaming}
use vimbax_ros2_driver.Node.{NodeWorld, ask}
use vimbax_ros2_driver.Node.Steps.{service, subscribers, run_service, run_event}
use vimbax_ros2_driver.Node.Stream.{graph_round, restart, follow}
use vimbax_ros2_driver.Node.Status.{on_set_parameters}
use vimbax_ros2_driver.Node.Declared.{
  Setting, buffer_count, autostream, use_ros_time, Values, IntegerRange, ParameterDescriptor,
  declared, HostState, HostStep, event, change, read_values, late_event, check_change, store_change,
  check_parameters, store_parameters, run_host_step, run_host_steps,
}
use vimbax_ros2_driver.Node.Declared.Counted.{RangeLaw, Ranged}
use vimbax_ros2_driver.Node.Declared.Interleaved.{run_host_steps-range}
use vimbax_ros2_driver.Camera.Stream.Outcomes.{Streaming}
use vimbax_ros2_driver.Node.Declared.Buffers.{run_host_steps-buffers}
use vimbax_ros2_driver.Tests.{working, busy_camera, one_frame}
use vimbax_ros2_driver.Tests.Nodes.{node_with}
use vimbax_ros2_driver.Tests.Connections.{host}

abbrev in_range : Option IntegerRange → ℤ → Bool
in_range none v = true
in_range (some r) (pos n) = leb r.from_value n && leb n r.to_value
in_range (some r) (negsuc n) = false

abbrev checks : ParameterDescriptor → Setting → Bool
checks d (buffer_count v) = in_range d.integer_range v
checks d s = not d.read_only

in_some_range :
    (r : IntegerRange) (v : ℤ)
    → in_range (some r) v ≡ true
    → (n : ℕ) × (v ≡ pos n) × (r.from_value ≤ n) × (n ≤ r.to_value)
in_some_range r (pos n) h = (n, refl, ground arith, ground arith)
in_some_range r (negsuc n) h = absurd (ground arith)

checks-RangeLaw : RangeLaw checks
checks-RangeLaw = record { within = λ d r v e h. in_some_range r v (rw e at h) }

abbrev three_buffers : Camera
three_buffers = record busy_camera { frames = replicate 3 (some one_frame) }

three_buffers-Streaming : Streaming 3 7 three_buffers
three_buffers-Streaming = record {
  state = refl;
  count = refl;
  set = (refl, (refl, (refl, tt)));
  thread = refl;
  enable = refl;
}

abbrev streaming_node : NodeWorld ℕ
streaming_node = record { node = node_with three_buffers; dev = 0 }

abbrev three : Values
three = record declared { buffer_count_value = pos 3 }

-- While the camera streams, another number is refused, and the other values are not.
abbrev nine_refused : List (HostStep ℕ)
nine_refused =
    change (use_ros_time true ∷ buffer_count (pos 9) ∷ [])
    ∷ event (service (subscribers 3 2))
    ∷ change (autostream (pos 0) ∷ [])
    ∷ []

abbrev three_state : HostState ℕ
three_state = record { values = three; world = streaming_node; reads = []; accepted = none }

abbrev no_autostream : HostState ℕ
no_autostream = record three_state { values = record three { autostream_value = pos 0 } }

nine_refused_run : run_host_steps checks working host nine_refused three_state ≡ no_autostream
unfolding run_host_step run_event run_service graph_round restart on_set_parameters ask is_streaming
    ◌>>=◌ pure gets follow check_parameters store_parameters
nine_refused_run = refl

run_host_steps-buffers_example :
    (n : ℕ) × (pos 3 ≡ pos n) × (3 ≤ n) × (n ≤ 1000) × (length three_buffers.frames ≡ n)
run_host_steps-buffers_example =
    run_host_steps-buffers checks working host nine_refused three_state no_autostream three_buffers
      checks-RangeLaw tt (3, refl, omega arith, omega arith) refl
      (streaming 3 7 refl three_buffers-Streaming) nine_refused_run refl refl

-- The same changes and the same step, each in two parts.
abbrev interleaved : List (HostStep ℕ)
interleaved =
    read_values
    ∷ check_change (use_ros_time true ∷ buffer_count (pos 9) ∷ [])
    ∷ check_change (autostream (pos 0) ∷ [])
    ∷ late_event 0 (service (subscribers 3 2))
    ∷ store_change
    ∷ []

abbrev no_autostream_read : HostState ℕ
no_autostream_read = record no_autostream { reads = three ∷ [] }

interleaved_run : run_host_steps checks working host interleaved three_state ≡ no_autostream_read
unfolding run_host_step run_event run_service graph_round restart on_set_parameters ask is_streaming
    ◌>>=◌ pure gets follow check_parameters store_parameters
interleaved_run = refl

run_host_steps-range_example :
    Ranged no_autostream_read.values
    × (3 ≤ length three_buffers.frames)
    × (length three_buffers.frames ≤ 1000)
run_host_steps-range_example =
    run_host_steps-range checks working host interleaved three_state no_autostream_read
      three_buffers checks-RangeLaw (3, refl, omega arith, omega arith) refl refl
      (streaming 3 7 (omega arith, omega arith) three_buffers-Streaming) interleaved_run refl refl
