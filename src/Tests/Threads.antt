-- ===== src/Tests/Threads.antt =====
-- Interleavings of the threads that share the queue of ready frames.
use vimbax_ros2_driver.Common.{
  ℕ, ◌≤◌, ◌≡◌, ◌≢◌, ◌⊎◌, refl, true, false, none, some, List, [], ◌∷◌, ◌++◌, map,
}
use vimbax_ros2_driver.Camera.{Frame, by_image}
use vimbax_ros2_driver.Camera.Stream.{end_processing}
use vimbax_ros2_driver.Camera.Threads.{
  taken, dropped, Threads, Thread, Processing, Stopping, Callback, Move, process, stop, call_back,
  arrive, move_step, move_run, started, given_up, shows,
}
use vimbax_ros2_driver.Camera.Threads.Inv.{
  AtMostOne, processing_holds, stopping_holds, callback_holds, move_run-exclusive,
}
use vimbax_ros2_driver.Camera.Threads.Falls.{process_moves}
use vimbax_ros2_driver.Camera.Threads.Join.{GoesOn, join-GoesOn}
use vimbax_ros2_driver.Camera.Threads.Emptied.{join-end_processing}
use vimbax_ros2_driver.Camera.Threads.Emptied.{drained}
use vimbax_ros2_driver.Camera.Threads.Order.{frame_of, all_taken, pending}
use vimbax_ros2_driver.Camera.Threads.Order.Called.{taken_of, in_hand, move_run-arrived}
use vimbax_ros2_driver.Camera.Threads.Abandoned.{Own, asleep, destroy-hangs}
use vimbax_ros2_driver.Tests.{working, idle_camera}

abbrev a_frame : ℕ → Frame
a_frame n = record {
  vmb_frame = record { context = n; buffer = true; buffer_size = 4 };
  allocation_mode = by_image;
  callback = some 7;
  size = 4;
  step = 2;
}

-- Two frames come; the first is handled while the second waits in the queue, and CaptureEnd returns.
abbrev two_frames : List Move
two_frames =
    process
    ∷ process
    ∷ process
    ∷ arrive (a_frame 1)
    ∷ process
    ∷ call_back
    ∷ call_back
    ∷ call_back
    ∷ call_back
    ∷ process
    ∷ process
    ∷ process
    ∷ process
    ∷ arrive (a_frame 2)
    ∷ call_back
    ∷ call_back
    ∷ call_back
    ∷ call_back
    ∷ stop
    ∷ []

abbrev one_waits : Threads
one_waits = record {
  frame_processing_enable = true;
  frame_ready_queue_mutex = none;
  frame_ready_queue = a_frame 2 ∷ [];
  processing = Processing.handling (a_frame 1);
  stopping = Stopping.disabling;
  callback = Callback.quiet;
  log = taken (a_frame 1) ∷ [];
  called = [];
}

two_frames_run : move_run two_frames started ≡ some one_waits
unfolding move_run
two_frames_run = refl

-- The rest of stop_streaming, as the thread comes back from the first frame.
abbrev to_join : List Move
to_join = stop ∷ process ∷ stop ∷ stop ∷ stop ∷ stop ∷ []

abbrev at_join : Threads
at_join = record {
  frame_processing_enable = false;
  frame_ready_queue_mutex = none;
  frame_ready_queue = [];
  processing = Processing.testing;
  stopping = Stopping.joining;
  callback = Callback.quiet;
  log = taken (a_frame 1) ∷ dropped (a_frame 2) ∷ [];
  called = a_frame 1 ∷ [];
}

abbrev at_end : Threads
at_end = record at_join { processing = Processing.ended; stopping = Stopping.joined }

to_join_run : move_run (two_frames ++ to_join) started ≡ some at_join
unfolding move_run
to_join_run = refl

to_end_run : move_run (to_join ++ process ∷ stop ∷ []) one_waits ≡ some at_end
unfolding move_run
to_end_run = refl

-- A thread that is about to sleep holds the mutex, and stop_streaming waits for it.
sleep_first : move_run (process ∷ process ∷ process ∷ stop ∷ stop ∷ stop ∷ []) started ≡ none
unfolding move_run
sleep_first = refl

move_run-exclusive_example :
    AtMostOne
      (processing_holds at_join.processing)
      (stopping_holds at_join.stopping)
      (callback_holds at_join.callback)
    × ((at_join.stopping ≡ Stopping.joining) ⊎ (at_join.stopping ≡ Stopping.joined)
        → (at_join.processing ≢ Processing.sleeping) × (at_join.processing ≢ Processing.parking))
move_run-exclusive_example = move_run-exclusive (two_frames ++ to_join) at_join to_join_run

join-GoesOn_example : (process_moves (process ∷ stop ∷ []) ≤ 6) × GoesOn at_end
unfolding move_run
join-GoesOn_example =
    join-GoesOn (two_frames ++ to_join) (process ∷ stop ∷ []) at_join at_end to_join_run refl refl

join-end_processing_example :
    (at_end.processing ≡ Processing.ended)
    × (at_end.frame_ready_queue_mutex ≡ none)
    × (shows at_end idle_camera ≡ end_processing working (shows one_waits idle_camera))
join-end_processing_example =
    join-end_processing working two_frames (to_join ++ process ∷ stop ∷ []) one_waits at_end
      idle_camera two_frames_run refl refl tt to_end_run refl

-- The first frame is handled, and the second is taken out of the queue.
move_run-arrived_example :
    (a_frame 1 ∷ a_frame 2 ∷ []
      ≡ map frame_of at_join.log ++ (at_join.frame_ready_queue ++ pending at_join.callback))
    × (taken_of at_join.log ≡ at_join.called ++ in_hand at_join.processing)
    × ((drained at_join.stopping ≡ true) ⊎ (all_taken at_join.log ≡ true))
move_run-arrived_example = move_run-arrived (two_frames ++ to_join) at_join to_join_run

-- The thread of a lost camera finds no frame, and is about to sleep.
abbrev about_to_sleep : Threads
about_to_sleep = record given_up {
  frame_ready_queue_mutex = some Thread.processing;
  processing = Processing.parking;
}

about_to_sleep_run : move_run (process ∷ process ∷ process ∷ []) given_up ≡ some about_to_sleep
unfolding move_run
about_to_sleep_run = refl

destroy-hangs_example :
    (move_run (stop ∷ stop ∷ process ∷ []) about_to_sleep ≡ some (asleep about_to_sleep))
    × ((m : Move) → Own m → move_step m (asleep about_to_sleep) ≡ none)
destroy-hangs_example = destroy-hangs about_to_sleep refl refl refl
