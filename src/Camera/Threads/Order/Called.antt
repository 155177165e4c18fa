-- ===== src/Camera/Threads/Order/Called.antt =====
-- The frames for which on_frame_ready is called are those that the processing thread has taken.
use vimbax_ros2_driver.Common.{
  ◌≡◌, refl, ap, sym, ◌∙◌, true, none, some, List, [], ◌∷◌, ◌++◌, map, arith, Option-cases, inl,
  inr, ◌⊎◌,
}
use mathlib.Core.List.{append-nil}
use vimbax_ros2_driver.Camera.{Frame}
use vimbax_ros2_driver.Camera.Threads.{
  Fate, taken, dropped, Processing, Stopping, Threads, Move, process, stop, call_back, wake, arrive,
  move_step, move_run, process_step, stop_step, call_back_step, pop_front, woken_from, started,
}
use vimbax_ros2_driver.Camera.Threads.Emptied.{drained}
use vimbax_ros2_driver.Camera.Threads.Order.{
  frame_of, all_taken, fates, arrived, pending, in_flight, move_run-fates,
}
use vimbax_ros2_driver.Camera.Threads.Order.Fates.{move_run-Told, settled}

-- The frames of the record that the processing thread has taken.
abbrev pub taken_of : List Fate → List Frame
taken_of [] = []
taken_of (taken f ∷ log) = f ∷ taken_of log
taken_of (dropped f ∷ log) = taken_of log

-- The frame that the thread has taken, until on_frame_ready has returned.
abbrev pub in_hand : Processing → List Frame
in_hand (Processing.leaving (some f)) = f ∷ []
in_hand (Processing.handling f) = f ∷ []
in_hand p = []

abbrev Called : Threads → Type 0
Called s = taken_of s.log ≡ s.called ++ in_hand s.processing

taken_of-taken :
    (log : List Fate) (f : Frame) → taken_of (log ++ taken f ∷ []) ≡ taken_of log ++ f ∷ []
taken_of-taken [] f = refl
taken_of-taken (taken g ∷ log) f = ap (◌∷◌ g) (taken_of-taken log f)
taken_of-taken (dropped g ∷ log) f = taken_of-taken log f

taken_of-dropped :
    (log : List Fate) (queue : List Frame) → taken_of (log ++ map dropped queue) ≡ taken_of log
taken_of-dropped [] [] = refl
taken_of-dropped [] (f ∷ queue) = taken_of-dropped [] queue
taken_of-dropped (taken g ∷ log) queue = ap (◌∷◌ g) (taken_of-dropped log queue)
taken_of-dropped (dropped g ∷ log) queue = taken_of-dropped log queue

pop_front-Called :
    (queue : List Frame) (s t : Threads)
    → s.processing ≡ Processing.popping
    → Called s
    → some (pop_front queue s) ≡ some t
    → Called t
pop_front-Called [] s t e c h = ground arith
pop_front-Called (f ∷ queue) s t e c h =
    let n = append-nil s.called in let k = taken_of-taken s.log f in ground arith

process_step-Called :
    (p : Processing) (s t : Threads)
    → s.processing ≡ p
    → Called s
    → process_step p s ≡ some t
    → Called t
unfolding process_step
process_step-Called Processing.popping s t e c h = pop_front-Called s.frame_ready_queue s t e c h
process_step-Called (Processing.leaving none) s t e c h = ground arith
process_step-Called (Processing.leaving (some f)) s t e c h = ground arith
process_step-Called (Processing.handling f) s t e c h =
    let n = append-nil (s.called ++ f ∷ []) in ground arith
process_step-Called p s t e c h = ground arith

in_hand-woken_from : (p : Processing) → in_hand (woken_from p) ≡ in_hand p
in_hand-woken_from (Processing.leaving none) = refl
in_hand-woken_from (Processing.leaving (some f)) = refl
in_hand-woken_from p = refl

stop_step-Called :
    (p : Stopping) (s t : Threads) → s.stopping ≡ p → Called s → stop_step p s ≡ some t → Called t
unfolding stop_step
stop_step-Called Stopping.draining s t e c h =
    let k = taken_of-dropped s.log s.frame_ready_queue in ground arith
stop_step-Called p s t e c h = let k = in_hand-woken_from s.processing in ground arith

move_step-Called : (m : Move) (s t : Threads) → Called s → move_step m s ≡ some t → Called t
unfolding move_step call_back_step
move_step-Called process s t c h = process_step-Called s.processing s t refl c h
move_step-Called stop s t c h = stop_step-Called s.stopping s t refl c h
move_step-Called call_back s t c h = let k = in_hand-woken_from s.processing in ground arith
move_step-Called wake s t c h = ground arith
move_step-Called (arrive f) s t c h = ground arith

move_run-Called : (ms : List Move) (s t : Threads) → Called s → move_run ms s ≡ some t → Called t
unfolding move_run
move_run-Called [] s t c h = ground arith
move_run-Called (m ∷ ms) s t c h = elim (Option-cases (move_step m s)) [
  | inl e ↦ absurd (ground arith)
  | inr (u, e) ↦ move_run-Called ms u t (move_step-Called m s u c e) (ground arith)
]

-- However the threads interleave from the start on: the frames that have come are, in the order of their
-- coming, those that the processing thread or stop_streaming has taken out of the queue, then those in
-- the queue, and the one that a callback is about to push, so that none is lost, none comes twice, and
-- none overtakes another. The frames that the processing thread has taken are, in the same order, those
-- for which on_frame_ready has been called and returned, then the one that the thread has in hand. And
-- until stop_streaming has emptied the queue, all that were taken were taken by the processing thread.
pub move_run-arrived :
    (ms : List Move) (t : Threads)
    → move_run ms started ≡ some t
    → (arrived ms ≡ map frame_of t.log ++ (t.frame_ready_queue ++ pending t.callback))
      × (taken_of t.log ≡ t.called ++ in_hand t.processing)
      × ((drained t.stopping ≡ true) ⊎ (all_taken t.log ≡ true))
move_run-arrived ms t h =
    let f = move_run-fates ms started t h in
    (
      f.0 ∙ ap (λ (l : List Fate). map frame_of l ++ in_flight t) (sym f.1),
      move_run-Called ms started t refl h,
      rw f.1 (settled (drained t.stopping) (fates ms started) (move_run-Told ms started t h)),
    )
