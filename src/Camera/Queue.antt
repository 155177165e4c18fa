-- ===== src/Camera/Queue.antt =====
-- vimbax_camera.cpp: where the frames of a running stream are. A frame is named by its place in
-- `frames_`. The library hands back only frames that it was given, one call at a time; the thread that
-- processes the frames handles one at a time, and its callback, set by the node, queues the frame anew.
pub mod Flow
pub mod Order
use vimbax_ros2_driver.Common.{
  ℕ, Bool, true, false, Option, none, some, List, [], ◌∷◌, ◌++◌, ◌==◌, if◌then◌else◌,
}

-- The frames that the library holds, those in `frame_ready_queue_`, the one that the thread handles,
-- and those that could not be queued anew.
pub record Places : Type 0 where
  pub queued : List ℕ
  pub ready : List ℕ
  pub busy : Option ℕ
  pub lost : List ℕ

-- vmb_frame_callback for a complete frame, and for another with the outcome of `queue()`; the thread
-- that takes the next frame; and the end of on_frame_ready, with the outcome of `queue()`.
pub data FrameEvent : Type 0 where
  complete : ℕ → FrameEvent
  incomplete : ℕ → Bool → FrameEvent
  take_next : FrameEvent
  finish : Bool → FrameEvent

-- The frames that the library holds without the one that it hands back.
unfoldable pub hand_back : ℕ → List ℕ → Option (List ℕ)
hand_back i [] = none
hand_back i (j ∷ xs) =
    if i == j then some xs else elim (hand_back i xs) [ none ↦ none | some ys ↦ some (j ∷ ys) ]

-- `queue()`: the frame is with the library, or, where the call fails, nowhere.
abbrev pub requeue : Bool → ℕ → Places → Places
requeue true i p = record p { queued = p.queued ++ i ∷ [] }
requeue false i p = record p { lost = i ∷ p.lost }

abbrev pub take_from : Option ℕ → List ℕ → Places → Option Places
take_from none (i ∷ ready) p = some (record p { ready = ready; busy = some i })
take_from none [] p = none
take_from (some j) ready p = none

abbrev pub finish_with : Option ℕ → Bool → Places → Option Places
finish_with none ok p = none
finish_with (some i) ok p = some (requeue ok i (record p { busy = none }))

-- None where the event cannot happen.
unfoldable pub frame_step : FrameEvent → Places → Option Places
unfolding hand_back
frame_step (complete i) p = elim (hand_back i p.queued) [
  | none ↦ none
  | some rest ↦ some (record p { queued = rest; ready = p.ready ++ i ∷ [] })
]
frame_step (incomplete i ok) p = elim (hand_back i p.queued) [
  | none ↦ none
  | some rest ↦ some (requeue ok i (record p { queued = rest }))
]
frame_step take_next p = take_from p.busy p.ready p
frame_step (finish ok) p = finish_with p.busy ok p

unfoldable pub frame_run : List FrameEvent → Places → Option Places
unfolding frame_step
frame_run [] p = some p
frame_run (e ∷ es) p = elim (frame_step e p) [ none ↦ none | some p' ↦ frame_run es p' ]
