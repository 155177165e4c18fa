-- ===== src/Camera/Threads/Emptied.antt =====
-- What the three threads leave when the join returns, against the single step of Camera/Stream.
use vimbax_ros2_driver.Common.{
  ◌≡◌, refl, ap, ◌∙◌, Bool, true, false, Option, none, some, List, [], ◌∷◌, arith, Option-cases,
  inl, inr, if◌then◌else◌,
}
use vimbax_ros2_driver.Vmbc.{Api}
use vimbax_ros2_driver.Camera.{Camera, Frame}
use vimbax_ros2_driver.Camera.Stream.{end_processing}
use vimbax_ros2_driver.Camera.Threads.{
  Thread, Processing, Stopping, Callback, Threads, Move, process, stop, call_back, wake, arrive,
  move_step, move_run, process_step, stop_step, call_back_step, started, shows, is_empty,
}
use vimbax_ros2_driver.Camera.Threads.Inv.{
  move_run-Inv, started-Inv, owns, enabled_at, is_stop, processing_holds, stopping_holds,
  callback_holds,
}

-- The library begins no callback.
abbrev pub Silent : List Move → Type 0
Silent [] = Unit {0}
Silent (arrive f ∷ ms) = ⊥
Silent (m ∷ ms) = Silent ms

abbrev pub drained : Stopping → Bool
drained Stopping.unlocking = true
drained Stopping.notifying = true
drained Stopping.joining = true
drained Stopping.joined = true
drained _ = false

abbrev ended_at : Stopping → Processing → Bool
ended_at Stopping.joined Processing.ended = true
ended_at Stopping.joined _ = false
ended_at _ _ = true

record Emptied (s : Threads) : Type 0 where
  no_callback : s.callback ≡ Callback.quiet
  empty : (if drained s.stopping then is_empty s.frame_ready_queue else true) ≡ true
  in_stop : is_stop s.stopping ≡ true
  ends : ended_at s.stopping s.processing ≡ true

process_step-Emptied :
    (p : Processing) (s t : Threads)
    → s.processing ≡ p
    → Emptied s
    → process_step p s ≡ some t
    → Emptied t
unfolding process_step
process_step-Emptied Processing.ended s t e v h = ground arith
process_step-Emptied (Processing.leaving none) s t e v h = ground arith
process_step-Emptied (Processing.leaving (some f)) s t e v h = ground arith
process_step-Emptied p s t e v h = ground arith

stop_step-Emptied :
    (p : Stopping) (s t : Threads) → s.stopping ≡ p → Emptied s → stop_step p s ≡ some t → Emptied t
unfolding stop_step
stop_step-Emptied Stopping.abandoning s t e v h = ground arith
stop_step-Emptied Stopping.alerting s t e v h = ground arith
stop_step-Emptied Stopping.joined s t e v h = ground arith
stop_step-Emptied p s t e v h = ground arith

move_step-Emptied :
    (m : Move) (s t : Threads) → Silent (m ∷ []) → Emptied s → move_step m s ≡ some t → Emptied t
unfolding move_step call_back_step
move_step-Emptied process s t q v h = process_step-Emptied s.processing s t refl v h
move_step-Emptied stop s t q v h = stop_step-Emptied s.stopping s t refl v h
move_step-Emptied call_back s t q v h = ground arith
move_step-Emptied wake s t q v h = ground arith
move_step-Emptied (arrive f) s t q v h = absurd q

Silent-cons : (m : Move) (ms : List Move) → Silent (m ∷ ms) → Silent (m ∷ []) × Silent ms
Silent-cons process ms q = (tt, q)
Silent-cons stop ms q = (tt, q)
Silent-cons call_back ms q = (tt, q)
Silent-cons wake ms q = (tt, q)
Silent-cons (arrive f) ms q = absurd q

move_run-Emptied :
    (ms : List Move) (s t : Threads) → Silent ms → Emptied s → move_run ms s ≡ some t → Emptied t
unfolding move_run
move_run-Emptied [] s t q v h = ground arith
move_run-Emptied (m ∷ ms) s t q v h = elim (Option-cases (move_step m s)) [
  | inl e ↦ absurd (ground arith)
  | inr (u, e) ↦
      let c = Silent-cons m ms q in
      move_run-Emptied ms u t c.1 (move_step-Emptied m s u c.0 v e) (ground arith)
]

unowned :
    (m : Option Thread)
    → owns Thread.processing m ≡ false
    → owns Thread.stopper m ≡ false
    → owns Thread.library m ≡ false
    → m ≡ none
unowned none p q r = refl
unowned (some Thread.processing) p q r = absurd (ground arith)
unowned (some Thread.stopper) p q r = absurd (ground arith)
unowned (some Thread.library) p q r = absurd (ground arith)

ended_at-joined : (p : Processing) → ended_at Stopping.joined p ≡ true → p ≡ Processing.ended
ended_at-joined Processing.ended h = refl
ended_at-joined p h = absurd (ground arith)

is_empty-nil : (q : List Frame) → is_empty q ≡ true → q ≡ []
is_empty-nil [] h = refl
is_empty-nil (f ∷ q) h = absurd (ground arith)

shown :
    (api : Api) (s t : Threads) (c : Camera)
    → s.stopping ≡ Stopping.disabling
    → t.stopping ≡ Stopping.joined
    → t.frame_ready_queue ≡ []
    → t.frame_processing_enable ≡ false
    → shows t c ≡ end_processing api (shows s c)
shown api s t c d j e o = ground arith

-- As VmbC documents it, CaptureEnd returns when no callback runs, and none begins afterwards. Then,
-- however the three threads interleave before and after, the processing thread has ended and the mutex is
-- free when the join returns, and the camera's members are what the one step `end_processing` makes of
-- those at the return of CaptureEnd: no frame is left in the queue, and the thread and its flag are gone.
pub join-end_processing :
    (api : Api) (before after : List Move) (s t : Threads) (c : Camera)
    → move_run before started ≡ some s
    → s.stopping ≡ Stopping.disabling
    → s.callback ≡ Callback.quiet
    → Silent after
    → move_run after s ≡ some t
    → t.stopping ≡ Stopping.joined
    → (t.processing ≡ Processing.ended)
      × (t.frame_ready_queue_mutex ≡ none)
      × (shows t c ≡ end_processing api (shows s c))
join-end_processing api before after s t c b d q z a j =
    let v =
      move_run-Emptied after s t z
        (record { no_callback = q; empty = rw d refl; in_stop = rw d refl; ends = rw d refl }) a in
    let i = move_run-Inv after s t (move_run-Inv before started s started-Inv b) a in
    let p : t.processing ≡ Processing.ended = ended_at-joined t.processing (rw j at v.ends) in
    let e : t.frame_ready_queue ≡ [] = is_empty-nil t.frame_ready_queue (rw j at v.empty) in
    let o : t.frame_processing_enable ≡ false = i.enabled ∙ ap enabled_at j in
    (
      p,
      unowned t.frame_ready_queue_mutex (i.processing_owns ∙ ap processing_holds p)
          (i.stopping_owns ∙ ap stopping_holds j)
          (i.callback_owns ∙ ap callback_holds v.no_callback),
      shown api s t c d j e o,
    )
