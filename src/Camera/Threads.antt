-- ===== src/Camera/Threads.antt =====
-- vimbax_camera.cpp: the three threads that share the queue of ready frames, an access at a time: the
-- processing thread of start_streaming, the thread in stop_streaming from the end of CaptureEnd to the
-- join, or in the destructor, and the thread of the library in vmb_frame_callback. Any interleaving is a list of moves.
pub mod Inv
pub mod Falls
pub mod Join
pub mod Emptied
pub mod Order
pub mod Abandoned
use vimbax_ros2_driver.Common.{
  Bool, true, false, Option, none, some, List, [], ◌∷◌, ◌++◌, map, ◌||◌, not, if◌then◌else◌,
}
use vimbax_ros2_driver.Camera.{Camera, Frame}

pub data Thread : Type 0 where
  processing stopper library : Thread

-- Where the processing thread stands. `checking`, `parking` and `popping` hold the mutex, and so does
-- `leaving`, at the end of the lambda with what it returns.
pub data Processing : Type 0 where
  testing locking checking parking sleeping woken popping ended : Processing
  leaving : Option Frame → Processing
  handling : Frame → Processing

-- Where stop_streaming stands: before the return of CaptureEnd, before `frame_processing_enable_` is
-- reset, at the lock, in the loop that empties the queue, at the end of its block, before notify_all,
-- in join, and behind it. The destructor of a camera that is not alive is `abandoning` before it resets
-- the flag, and `alerting` before notify_all; then it joins.
pub data Stopping : Type 0 where
  capturing disabling locking draining unlocking notifying joining joined : Stopping
  abandoning alerting : Stopping

-- Where vmb_frame_callback stands, with a complete frame.
pub data Callback : Type 0 where
  quiet unlocking notifying : Callback
  locking pushing : Frame → Callback

-- Who has taken a frame out of the queue: the processing thread, to handle it, or stop_streaming.
pub data Fate : Type 0 where
  taken dropped : Frame → Fate

-- What the threads share, where each stands, and a record of what they have done: who has taken which
-- frame, and for which frames on_frame_ready has been called.
pub record Threads : Type 0 where
  pub frame_processing_enable : Bool
  pub frame_ready_queue_mutex : Option Thread
  pub frame_ready_queue : List Frame
  pub processing : Processing
  pub stopping : Stopping
  pub callback : Callback
  pub log : List Fate
  pub called : List Frame

-- One move of a thread, the begin of a callback with a complete frame, and a wait that ends though
-- nobody has notified it.
pub data Move : Type 0 where
  process stop call_back wake : Move
  arrive : Frame → Move

unfoldable pub acquire : Thread → Threads → Option Threads
acquire t s = elim s.frame_ready_queue_mutex [
  | none ↦ some (record s { frame_ready_queue_mutex = some t })
  | some _ ↦ none
]

abbrev pub release : Threads → Threads
release s = record s { frame_ready_queue_mutex = none }

-- Only the processing thread waits on `frame_ready_cv_`.
abbrev pub woken_from : Processing → Processing
woken_from sleeping = woken
woken_from p = p

abbrev pub notify : Threads → Threads
notify s = record s { processing = woken_from s.processing }

abbrev pub goes : Processing → Threads → Threads
goes p s = record s { processing = p }

abbrev pub is_empty : List Frame → Bool
is_empty [] = true
is_empty (frame ∷ frames) = false

-- `front` and `pop`, or std::nullopt.
abbrev pub pop_front : List Frame → Threads → Threads
pop_front [] s = goes (leaving none) s
pop_front (frame ∷ frames) s =
    goes (leaving (some frame))
      (record s { frame_ready_queue = frames; log = s.log ++ taken frame ∷ [] })

-- The body of the thread.
unfoldable pub process_step : Processing → Threads → Option Threads
unfolding acquire
process_step testing s = some (goes (if s.frame_processing_enable then locking else ended) s)
process_step locking s = acquire processing (goes checking s)
process_step checking s =
    let ready = not (is_empty s.frame_ready_queue) || not s.frame_processing_enable in
    some (goes (if ready then popping else parking) s)
process_step parking s = some (release (goes sleeping s))
process_step sleeping s = none
process_step woken s = acquire processing (goes checking s)
process_step popping s = some (pop_front s.frame_ready_queue s)
process_step (leaving none) s = some (release (goes testing s))
process_step (leaving (some frame)) s = some (release (goes (handling frame) s))
process_step (handling frame) s = some (goes testing (record s { called = s.called ++ frame ∷ [] }))
process_step ended s = none

abbrev pub stops : Stopping → Threads → Threads
stops p s = record s { stopping = p }

-- `join` returns when the thread has ended.
abbrev pub join : Processing → Threads → Option Threads
join ended s = some (stops joined s)
join p s = none

unfoldable pub stop_step : Stopping → Threads → Option Threads
unfolding acquire
stop_step capturing s = some (stops disabling s)
stop_step disabling s = some (stops locking (record s { frame_processing_enable = false }))
stop_step locking s = acquire stopper (stops draining s)
stop_step draining s = some (
    stops unlocking
      (record s { frame_ready_queue = []; log = s.log ++ map dropped s.frame_ready_queue }))
stop_step unlocking s = some (release (stops notifying s))
stop_step notifying s = some (notify (stops joining s))
stop_step abandoning s = some (stops alerting (record s { frame_processing_enable = false }))
stop_step alerting s = some (notify (stops joining s))
stop_step joining s = join s.processing s
stop_step joined s = none

abbrev pub calls : Callback → Threads → Threads
calls p s = record s { callback = p }

unfoldable pub call_back_step : Callback → Threads → Option Threads
unfolding acquire
call_back_step quiet s = none
call_back_step (locking frame) s = acquire library (calls (pushing frame) s)
call_back_step (pushing frame) s =
    some (calls unlocking (record s { frame_ready_queue = s.frame_ready_queue ++ frame ∷ [] }))
call_back_step unlocking s = some (release (calls notifying s))
call_back_step notifying s = some (notify (calls quiet s))

abbrev pub arrive_at : Callback → Frame → Threads → Option Threads
arrive_at quiet frame s = some (calls (locking frame) s)
arrive_at c frame s = none

abbrev pub wake_from : Processing → Threads → Option Threads
wake_from sleeping s = some (goes woken s)
wake_from p s = none

-- None where the thread cannot move.
unfoldable pub move_step : Move → Threads → Option Threads
unfolding process_step stop_step call_back_step
move_step process s = process_step s.processing s
move_step stop s = stop_step s.stopping s
move_step call_back s = call_back_step s.callback s
move_step wake s = wake_from s.processing s
move_step (arrive frame) s = arrive_at s.callback frame s

unfoldable pub move_run : List Move → Threads → Option Threads
unfolding move_step
move_run [] s = some s
move_run (m ∷ ms) s = elim (move_step m s) [ none ↦ none | some t ↦ move_run ms t ]

-- The thread as start_streaming creates it.
abbrev pub started : Threads
started = record {
  frame_processing_enable = true;
  frame_ready_queue_mutex = none;
  frame_ready_queue = [];
  processing = testing;
  stopping = capturing;
  callback = quiet;
  log = [];
  called = [];
}

-- Whether `frame_processing_thread_` is set.
abbrev pub has_thread : Stopping → Bool
has_thread joined = false
has_thread p = true

-- The camera's members as the threads leave them.
abbrev pub shows : Threads → Camera → Camera
shows s c = record c {
  frame_processing_enable = s.frame_processing_enable;
  frame_ready_queue = s.frame_ready_queue;
  frame_processing_thread = has_thread s.stopping;
}

-- The thread when the destructor has found that the camera is not alive.
abbrev pub given_up : Threads
given_up = record started { stopping = abandoning }
