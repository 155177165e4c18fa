-- ===== src/Camera/Threads/Abandoned.antt =====
-- The destructor of a camera that is not alive resets the flag and notifies without the mutex.
use vimbax_ros2_driver.Common.{◌≡◌, refl, none, some, [], ◌∷◌, arith, false}
use vimbax_ros2_driver.Camera.Threads.{
  Threads, Processing, Stopping, Callback, Move, process, stop, call_back, wake, arrive, move_step,
  move_run, process_step, stop_step, call_back_step,
}

-- What the threads do by themselves: no frame comes from the library, and no wait ends for no reason.
abbrev pub Own : Move → Type 0
Own (arrive f) = ⊥
Own wake = ⊥
Own m = Unit {0}

abbrev pub asleep : Threads → Threads
asleep s = record s {
  frame_processing_enable = false;
  frame_ready_queue_mutex = none;
  processing = Processing.sleeping;
  stopping = Stopping.joining;
}

asleep_stuck :
    (s : Threads) → s.callback ≡ Callback.quiet → (m : Move) → Own m → move_step m (asleep s) ≡ none
unfolding move_step process_step stop_step call_back_step
asleep_stuck s c process o = refl
asleep_stuck s c stop o = refl
asleep_stuck s c call_back o = rw c refl
asleep_stuck s c wake o = absurd o
asleep_stuck s c (arrive f) o = absurd o

-- Let the processing thread have found the queue empty and the flag set, and be about to sleep, when the
-- destructor of a camera that is not alive begins to end it, with no callback under way. If the
-- destructor resets the flag and notifies now, and the thread sleeps then, the notice is lost: the
-- destructor is in join, the thread sleeps, and no thread can move by itself any more.
pub destroy-hangs :
    (s : Threads)
    → s.processing ≡ Processing.parking
    → s.stopping ≡ Stopping.abandoning
    → s.callback ≡ Callback.quiet
    → (move_run (stop ∷ stop ∷ process ∷ []) s ≡ some (asleep s))
      × ((m : Move) → Own m → move_step m (asleep s) ≡ none)
unfolding move_run process_step stop_step
destroy-hangs s p q c = (ground arith, asleep_stuck s c)
