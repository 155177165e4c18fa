-- ===== src/Node/Locks.antt =====
-- vimbax_camera_node.cpp: `camera_mutex_` and `stream_state_mutex_`. The handlers of stream_start and
-- stream_stop, of which one runs at a time, hold the shared mutex when they call start_streaming or
-- stop_streaming, which take both mutexes by std::lock; the thread of initialize_graph_notify calls these
-- with no mutex; any number of other handlers holds the shared mutex; the discovery callback, or a thread
-- that opens the camera, one at a time, takes it alone. std::lock takes both or waits with neither.
pub mod Sound
pub mod Free
pub mod Stuck
use vimbax_ros2_driver.Common.{
  ℕ, zero, suc, ◌+◌, Bool, true, false, Option, none, some, List, [], ◌∷◌, ◌==◌, ◌&&◌, ◌||◌, not,
  if◌then◌else◌,
}

-- The handler of a stream service: outside, with the shared mutex, waiting in the std::lock of
-- start_streaming or stop_streaming, behind it with both, and back.
pub data StreamHandler : Type 0 where
  outside entered waiting within back : StreamHandler

pub data Writer : Type 0 where
  away asking inside : Writer

-- The shared mutex by the number of shared locks, the other by whether it is held; where each thread
-- stands; whether the graph thread is within; and the other handlers that hold the shared mutex.
pub record Locks : Type 0 where
  pub shared : ℕ
  pub stream_state : Bool
  pub handler : StreamHandler
  pub graph : Bool
  pub others : ℕ
  pub writer : Writer

pub data Turn : Type 0 where
  enter call lock_both unlock_both leave : Turn
  graph_lock graph_unlock : Turn
  other_enter other_leave : Turn
  ask write finish : Turn

abbrev pub is_inside : Writer → Bool
is_inside inside = true
is_inside w = false

abbrev pub is_asking : Writer → Bool
is_asking asking = true
is_asking w = false

-- The handler calls start_streaming or stop_streaming.
abbrev pub call_at : StreamHandler → Locks → Option Locks
call_at entered s = some (record s { handler = waiting })
call_at h s = none

abbrev pub fewer : ℕ → ℕ
fewer zero = zero
fewer (suc n) = n

abbrev pub unlock_both_at : StreamHandler → Locks → Option Locks
unlock_both_at within s =
    some (record s { shared = fewer s.shared; stream_state = false; handler = back })
unlock_both_at h s = none

abbrev pub leave_at : StreamHandler → Locks → Option Locks
leave_at entered s = some (record s { shared = fewer s.shared; handler = outside })
leave_at back s = some (record s { shared = fewer s.shared; handler = outside })
leave_at h s = none

abbrev pub graph_unlock_at : Bool → Locks → Option Locks
graph_unlock_at true s =
    some (record s { shared = fewer s.shared; stream_state = false; graph = false })
graph_unlock_at false s = none

abbrev pub other_leave_at : ℕ → Locks → Option Locks
other_leave_at (suc n) s = some (record s { shared = fewer s.shared; others = n })
other_leave_at zero s = none

-- `lock`, once asked for.
abbrev pub write_at : Writer → Locks → Option Locks
write_at asking s = if s.shared == 0 then some (record s { writer = inside }) else none
write_at w s = none

abbrev pub ask_at : Writer → Locks → Option Locks
ask_at away s = some (record s { writer = asking })
ask_at w s = none

abbrev pub finish_at : Writer → Locks → Option Locks
finish_at inside s = some (record s { writer = away })
finish_at w s = none

-- What the standard leaves to the library: whether a shared mutex lets no reader in while a writer waits.
module _ (prefers_writers : Bool) where
  -- `lock_shared`
  unfoldable pub may_share : Locks → Bool
  may_share s = not (is_inside s.writer) && not (prefers_writers && is_asking s.writer)

  abbrev pub enter_at : StreamHandler → Locks → Option Locks
  enter_at outside s =
      if may_share s then some (record s { shared = suc s.shared; handler = entered }) else none
  enter_at h s = none

  abbrev pub lock_both_at : StreamHandler → Locks → Option Locks
  lock_both_at waiting s =
      if may_share s && not s.stream_state
      then some (record s { shared = suc s.shared; stream_state = true; handler = within })
      else none
  lock_both_at h s = none

  abbrev pub graph_lock_at : Bool → Locks → Option Locks
  graph_lock_at false s =
      if may_share s && not s.stream_state
      then some (record s { shared = suc s.shared; stream_state = true; graph = true })
      else none
  graph_lock_at true s = none

  unfoldable pub take_turn : Turn → Locks → Option Locks
  unfolding may_share
  take_turn enter s = enter_at s.handler s
  take_turn call s = call_at s.handler s
  take_turn lock_both s = lock_both_at s.handler s
  take_turn unlock_both s = unlock_both_at s.handler s
  take_turn leave s = leave_at s.handler s
  take_turn graph_lock s = graph_lock_at s.graph s
  take_turn graph_unlock s = graph_unlock_at s.graph s
  take_turn other_enter s =
      if may_share s then some (record s { shared = suc s.shared; others = suc s.others }) else none
  take_turn other_leave s = other_leave_at s.others s
  take_turn ask s = ask_at s.writer s
  take_turn write s = write_at s.writer s
  take_turn finish s = finish_at s.writer s

  unfoldable pub take_turns : List Turn → Locks → Option Locks
  unfolding take_turn
  take_turns [] s = some s
  take_turns (t ∷ ts) s = elim (take_turn t s) [ none ↦ none | some s' ↦ take_turns ts s' ]

-- Nobody holds a mutex.
abbrev pub unlocked : Locks
unlocked = record {
  shared = 0;
  stream_state = false;
  handler = outside;
  graph = false;
  others = 0;
  writer = away;
}
