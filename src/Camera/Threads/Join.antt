-- ===== src/Camera/Threads/Join.antt =====
-- The join of stop_streaming ends.
use vimbax_ros2_driver.Common.{
  ◌≤◌, ◌≡◌, refl, sym, ap, ◌∙◌, true, false, Option, none, some, List, arith, inl, inr, ◌⊎◌,
}
use vimbax_ros2_driver.Camera.Threads.{
  Thread, Processing, Stopping, Callback, Threads, Move, process, stop, call_back, move_step,
  move_run, process_step, stop_step, call_back_step, acquire, started,
}
use vimbax_ros2_driver.Camera.Threads.Inv.{
  Inv, move_run-Inv, started-Inv, callback_holds, processing_holds, stopping_holds, owns,
}
use vimbax_ros2_driver.Camera.Threads.Falls.{rank-le, process_moves, notified, move_run-Falls}

abbrev pub CanMove : Move → Threads → Type 0
CanMove m s = (t : Threads) × (move_step m s ≡ some t)

-- Whoever is waited for can move.
abbrev pub GoesOn : Threads → Type 0
GoesOn s =
    (s.stopping ≡ Stopping.joined)
    ⊎ ((s.processing ≡ Processing.ended) × CanMove stop s)
    ⊎ CanMove process s
    ⊎ ((s.frame_ready_queue_mutex ≡ some Thread.library) × CanMove call_back s)

call_back_CanMove :
    (c : Callback) (s : Threads)
    → callback_holds c ≡ true
    → (t : Threads) × (call_back_step c s ≡ some t)
unfolding call_back_step
call_back_CanMove Callback.quiet s h = absurd (ground arith)
call_back_CanMove (Callback.locking f) s h = absurd (ground arith)
call_back_CanMove (Callback.pushing f) s h = (_, refl)
call_back_CanMove Callback.unlocking s h = (_, refl)
call_back_CanMove Callback.notifying s h = absurd (ground arith)

notified-stopping_holds : (p : Stopping) → notified p ≡ true → stopping_holds p ≡ true → ⊥
notified-stopping_holds Stopping.joining n h = ground arith
notified-stopping_holds Stopping.joined n h = ground arith
notified-stopping_holds p n h = ground arith

-- At the lock the processing thread waits for the library only.
waits_for :
    (m : Option Thread) (s : Threads)
    → s.frame_ready_queue_mutex ≡ m
    → Inv s
    → notified s.stopping ≡ true
    → processing_holds s.processing ≡ false
    → (p : Processing)
    → ((t : Threads) × (acquire Thread.processing (record s { processing = p }) ≡ some t))
      ⊎ ((m ≡ some Thread.library) × CanMove call_back s)
unfolding acquire move_step
waits_for none s e v n h p =
    inl (record s { processing = p; frame_ready_queue_mutex = some Thread.processing }, rw e refl)
waits_for (some Thread.processing) s e v n h p = absurd (ground (arith, v.processing_owns))
waits_for (some Thread.stopper) s e v n h p =
    absurd (notified-stopping_holds s.stopping n (sym v.stopping_owns ∙ ap (owns Thread.stopper) e))
waits_for (some Thread.library) s e v n h p =
    inr (refl, call_back_CanMove s.callback s (ground (arith, v.callback_owns)))

abbrev Processes : Processing → Threads → Type 0
Processes p s =
    (p ≡ Processing.ended)
    ⊎ ((t : Threads) × (process_step p s ≡ some t))
    ⊎ ((s.frame_ready_queue_mutex ≡ some Thread.library) × CanMove call_back s)

Processes-at :
    (p : Processing) (s : Threads)
    → s.processing ≡ p
    → Inv s
    → notified s.stopping ≡ true
    → Processes p s
unfolding process_step
Processes-at Processing.testing s e v n = inr (inl (_, refl))
Processes-at Processing.locking s e v n =
    inr (waits_for s.frame_ready_queue_mutex s refl v n (ap processing_holds e) Processing.checking)
Processes-at Processing.checking s e v n = inr (inl (_, refl))
Processes-at Processing.parking s e v n = absurd (ground (arith, v.waits))
Processes-at Processing.sleeping s e v n = absurd (ground (arith, v.waits))
Processes-at Processing.woken s e v n =
    inr (waits_for s.frame_ready_queue_mutex s refl v n (ap processing_holds e) Processing.checking)
Processes-at Processing.popping s e v n = inr (inl (_, refl))
Processes-at (Processing.leaving none) s e v n = inr (inl (_, refl))
Processes-at (Processing.leaving (some f)) s e v n = inr (inl (_, refl))
Processes-at (Processing.handling f) s e v n = inr (inl (_, refl))
Processes-at Processing.ended s e v n = inl refl

join_CanMove :
    (s : Threads) → s.processing ≡ Processing.ended → s.stopping ≡ Stopping.joining → CanMove stop s
unfolding move_step stop_step
join_CanMove s e j = (record s { stopping = Stopping.joined }, rw (j, e) refl)

GoesOn-notified :
    (p : Stopping) (s : Threads) → s.stopping ≡ p → notified p ≡ true → Inv s → GoesOn s
unfolding move_step
GoesOn-notified Stopping.joined s e n v = inl e
GoesOn-notified Stopping.joining s e n v =
    elim (Processes-at s.processing s refl v (ap notified e)) [
      | inl ended ↦ inr (inl (ended, join_CanMove s ended e))
      | inr rest ↦ inr (inr rest)
    ]
GoesOn-notified p s e n v = absurd (ground arith)

-- Let stop_streaming wait in join, after any interleaving of the three threads. However they go on from
-- there, the processing thread makes six moves at most, and at every moment either the join has returned,
-- or the thread has ended and join can return, or the thread can move, or the library holds the mutex
-- and can move.
pub join-GoesOn :
    (before after : List Move) (s t : Threads)
    → move_run before started ≡ some s
    → s.stopping ≡ Stopping.joining
    → move_run after s ≡ some t
    → (process_moves after ≤ 6) × GoesOn t
join-GoesOn before after s t b j a =
    let r =
      move_run-Falls after s t (move_run-Inv before started s started-Inv b) (ap notified j) a in
    (omega (arith, r.2, rank-le s.processing), GoesOn-notified t.stopping t refl r.1 r.0)
