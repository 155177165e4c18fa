-- ===== src/Tests/Locks.antt =====
-- A stream service and the loss of the camera at one time.
use vimbax_ros2_driver.Common.{◌≤◌, ◌≡◌, ◌⊎◌, refl, Bool, true, false, none, some, List, [], ◌∷◌}
use vimbax_ros2_driver.Node.Locks.{
  Locks, waiting, outside, asking, inside, Turn, enter, call, lock_both, unlock_both, leave,
  graph_lock, graph_unlock, other_enter, other_leave, ask, write, take_turns, unlocked,
}
use vimbax_ros2_driver.Node.Locks.Free.{Idle, GoesOn, work, locks-GoesOn}
use vimbax_ros2_driver.Node.Locks.Stuck.{Deadlocked, stream_service-deadlocks}

-- The handler of stream_start has entered and calls start_streaming; another handler is about; the graph
-- thread streams; and the notice of a lost camera arrives.
abbrev lost_meanwhile : List Turn
lost_meanwhile = enter ∷ other_enter ∷ graph_lock ∷ call ∷ ask ∷ []

abbrev all_wait : Locks
all_wait = record {
  shared = 3;
  stream_state = true;
  handler = waiting;
  graph = true;
  others = 1;
  writer = asking;
}

all_wait_reached :
    (prefers_writers : Bool) → take_turns prefers_writers lost_meanwhile unlocked ≡ some all_wait
unfolding take_turns
all_wait_reached true = refl
all_wait_reached false = refl

abbrev one_waits : Locks
one_waits = record {
  shared = 1;
  stream_state = false;
  handler = waiting;
  graph = false;
  others = 0;
  writer = asking;
}

others_gone :
    (prefers_writers : Bool)
    → take_turns prefers_writers (graph_unlock ∷ other_leave ∷ []) all_wait ≡ some one_waits
unfolding take_turns
others_gone true = refl
others_gone false = refl

handler_stuck : take_turns true (lock_both ∷ []) one_waits ≡ none
unfolding take_turns
handler_stuck = refl

-- Where readers go first, the notice is served in the end.
abbrev served : Locks
served = record {
  shared = 0;
  stream_state = false;
  handler = outside;
  graph = false;
  others = 0;
  writer = inside;
}

served_last :
    take_turns false (lock_both ∷ unlock_both ∷ leave ∷ write ∷ []) one_waits ≡ some served
unfolding take_turns
served_last = refl

locks-GoesOn_example : (2 ≤ work all_wait) × (Idle one_waits ⊎ GoesOn one_waits)
locks-GoesOn_example =
    locks-GoesOn lost_meanwhile (graph_unlock ∷ other_leave ∷ []) all_wait one_waits
      (all_wait_reached false) (tt, (tt, tt)) (others_gone false)

stream_service-deadlocks_example : Deadlocked one_waits
stream_service-deadlocks_example =
    stream_service-deadlocks lost_meanwhile (graph_unlock ∷ other_leave ∷ []) all_wait one_waits
      (all_wait_reached true) refl refl (others_gone true)
