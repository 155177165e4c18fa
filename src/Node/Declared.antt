-- ===== src/Node/Declared.antt =====
-- vimbax_camera_node.cpp: initialize_parameters, the changes of parameters between the steps of the node,
-- and the values that the stream runs with. What ROS does itself with a change, before it calls the
-- callback, is a parameter.
pub mod Counted
pub mod Buffers
pub mod Interleaved
use vimbax_ros2_driver.Common.{
  ℕ, get_elem?, String, Bool, true, false, Option, none, some, List, [], ◌∷◌, map, to_u64, ℤ, pos,
  negsuc, Exit, value, error, aborted, ◌==◌, ◌&&◌, if◌then◌else◌,
}
use vimbax_ros2_driver.Vmbc.{Api}
use vimbax_ros2_driver.Node.{NodeWorld}
use vimbax_ros2_driver.Node.Stream.{Parameters}
use vimbax_ros2_driver.Node.Status.{on_set_parameters}
use vimbax_ros2_driver.Node.Steps.{Host, Event, run_event}

pub record IntegerRange : Type 0 where
  pub from_value : ℕ
  pub to_value : ℕ
  pub step : ℕ

pub record ParameterDescriptor : Type 0 where
  pub read_only : Bool
  pub integer_range : Option IntegerRange

-- A new value for a parameter of the node.
pub data Setting : Type 0 where
  camera_id settings_file : String → Setting
  buffer_count autostream command_feature_timeout : ℤ → Setting
  use_ros_time : Bool → Setting

abbrev pub name_of : Setting → String
name_of (camera_id v) = "camera_id"
name_of (settings_file v) = "settings_file"
name_of (buffer_count v) = "buffer_count"
name_of (autostream v) = "autostream"
name_of (command_feature_timeout v) = "command_feature_timeout"
name_of (use_ros_time v) = "use_ros_time"

abbrev pub buffer_count_range : IntegerRange
buffer_count_range = record { from_value = 3; to_value = 1000; step = 1 }

-- What initialize_parameters declares.
abbrev pub descriptor : Setting → ParameterDescriptor
descriptor (camera_id v) = record { read_only = true; integer_range = none }
descriptor (settings_file v) = record { read_only = true; integer_range = none }
descriptor (buffer_count v) = record { read_only = false; integer_range = some buffer_count_range }
descriptor s = record { read_only = false; integer_range = none }

-- The values of the parameters that can change.
pub record Values : Type 0 where
  pub buffer_count_value : ℤ
  pub autostream_value : ℤ
  pub timeout_value : ℤ
  pub use_ros_time_value : Bool

abbrev pub declared : Values
declared = record {
  buffer_count_value = pos 7;
  autostream_value = pos 1;
  timeout_value = pos 0;
  use_ros_time_value = false;
}

abbrev pub store : Setting → Values → Values
store (buffer_count v) values = record values { buffer_count_value = v }
store (autostream v) values = record values { autostream_value = v }
store (command_feature_timeout v) values = record values { timeout_value = v }
store (use_ros_time v) values = record values { use_ros_time_value = v }
store s values = values

abbrev pub store_all : List Setting → Values → Values
store_all [] values = values
store_all (s ∷ ss) values = store_all ss (store s values)

abbrev pub is_one : ℤ → Bool
is_one (pos n) = n == 1
is_one (negsuc n) = false

-- What `get_parameter` gives to the stream.
abbrev pub stream_parameters : Values → ℕ → Parameters
stream_parameters values on_frame = record {
  buffer_count = to_u64 values.buffer_count_value;
  autostream = is_one values.autostream_value;
  on_frame = on_frame;
}

-- The values of the parameters and the node; the values that threads have read, the last of them first;
-- and the change that the callback has accepted and ROS has not yet stored.
pub record HostState (D : Type 0) : Type 0 where
  pub values : Values
  pub world : NodeWorld D
  pub reads : List Values
  pub accepted : Option (List Setting)

-- A thread reads the parameters and makes its step later, with the values of the given number: no lock
-- is held in between. A change is checked and stored later. Or nothing comes between the two: `event`
-- and `change`.
pub data HostStep (F : Type 0) : Type 0 where
  event : Event F → HostStep F
  change : List Setting → HostStep F
  read_values : HostStep F
  late_event : ℕ → Event F → HostStep F
  check_change : List Setting → HostStep F
  store_change : HostStep F

-- What ROS tests of a new value against the descriptor.
module _ (checks : ParameterDescriptor → Setting → Bool) where
  abbrev pub all_checked : List Setting → Bool
  all_checked [] = true
  all_checked (s ∷ ss) = checks (descriptor s) s && all_checked ss

  -- By the answer of the callback.
  abbrev pub accept_if :
      {D : Type 0} → List Setting → HostState D → Exit Bool × NodeWorld D → HostState D
  accept_if ss s (value true, w) = record s { world = w; accepted = some ss }
  accept_if ss s (value false, w) = record s { world = w }
  accept_if ss s (error e, w) = record s { world = w }
  accept_if ss s (aborted x, w) = record s { world = w }

  -- ROS makes one change at a time.
  abbrev pub check_if :
      {D : Type 0} → Option (List Setting) → List Setting → HostState D → HostState D
  check_if (some pending) ss s = s
  check_if none ss s =
      if all_checked ss then accept_if ss s (on_set_parameters (map name_of ss) s.world) else s

  abbrev pub store_accepted : {D : Type 0} → Option (List Setting) → HostState D → HostState D
  store_accepted none s = s
  store_accepted (some ss) s = record s { values = store_all ss s.values; accepted = none }

  unfoldable pub check_parameters : {D : Type 0} → List Setting → HostState D → HostState D
  check_parameters ss s = check_if s.accepted ss s

  unfoldable pub store_parameters : {D : Type 0} → HostState D → HostState D
  store_parameters s = store_accepted s.accepted s

  module _ (api : Api) (host : Host api) where
    abbrev pub host_with : Values → Host api
    host_with values = record host { stream = stream_parameters values host.stream.on_frame }

    abbrev pub event_with : Option Values → Event api.Float → HostState api.Dev → HostState api.Dev
    event_with none e s = s
    event_with (some values) e s = record s { world = run_event api (host_with values) e s.world }

    unfoldable pub run_host_step : HostStep api.Float → HostState api.Dev → HostState api.Dev
    unfolding check_parameters store_parameters
    run_host_step (event e) s = event_with (some s.values) e s
    run_host_step (change ss) s = store_parameters (check_parameters ss s)
    run_host_step read_values s = record s { reads = s.values ∷ s.reads }
    run_host_step (late_event i e) s = event_with (get_elem? s.reads i) e s
    run_host_step (check_change ss) s = check_parameters ss s
    run_host_step store_change s = store_parameters s

    abbrev pub run_host_steps : List (HostStep api.Float) → HostState api.Dev → HostState api.Dev
    run_host_steps [] s = s
    run_host_steps (e ∷ es) s = run_host_steps es (run_host_step e s)
