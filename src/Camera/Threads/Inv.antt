-- ===== src/Camera/Threads/Inv.antt =====
-- The mutex, the flag and the wait of the processing thread, in every interleaving.
use vimbax_ros2_driver.Common.{
  ◌≢◌, ◌≡◌, refl, Bool, true, false, Option, none, some, List, [], ◌∷◌, arith, Option-cases, inl,
  inr, ◌⊎◌,
}
use vimbax_ros2_driver.Camera.Threads.{
  Thread, Processing, Stopping, Callback, Threads, Move, process, stop, call_back, wake, arrive,
  move_step, move_run, process_step, stop_step, call_back_step, started,
}

abbrev pub processing_holds : Processing → Bool
processing_holds Processing.checking = true
processing_holds Processing.parking = true
processing_holds Processing.popping = true
processing_holds (Processing.leaving _) = true
processing_holds _ = false

abbrev pub stopping_holds : Stopping → Bool
stopping_holds Stopping.draining = true
stopping_holds Stopping.unlocking = true
stopping_holds _ = false

abbrev pub callback_holds : Callback → Bool
callback_holds (Callback.pushing _) = true
callback_holds Callback.unlocking = true
callback_holds _ = false

abbrev pub owns : Thread → Option Thread → Bool
owns Thread.processing (some Thread.processing) = true
owns Thread.stopper (some Thread.stopper) = true
owns Thread.library (some Thread.library) = true
owns _ _ = false

-- Before the flag is reset.
abbrev pub enabled_at : Stopping → Bool
enabled_at Stopping.capturing = true
enabled_at Stopping.disabling = true
enabled_at Stopping.abandoning = true
enabled_at _ = false

-- Where stop_streaming may still stand when the processing thread sleeps, or is about to.
abbrev pub may_wait : Processing → Stopping → Bool
may_wait Processing.parking Stopping.capturing = true
may_wait Processing.parking Stopping.disabling = true
may_wait Processing.parking Stopping.locking = true
may_wait Processing.parking _ = false
may_wait Processing.sleeping Stopping.joining = false
may_wait Processing.sleeping Stopping.joined = false
may_wait Processing.sleeping _ = true
may_wait _ _ = true

-- In stop_streaming, not in the destructor.
abbrev pub is_stop : Stopping → Bool
is_stop Stopping.abandoning = false
is_stop Stopping.alerting = false
is_stop _ = true

abbrev pub may_end : Processing → Bool → Bool
may_end Processing.ended true = false
may_end _ _ = true

pub record Inv (s : Threads) : Type 0 where
  pub processing_owns :
      owns Thread.processing s.frame_ready_queue_mutex ≡ processing_holds s.processing
  pub stopping_owns : owns Thread.stopper s.frame_ready_queue_mutex ≡ stopping_holds s.stopping
  pub callback_owns : owns Thread.library s.frame_ready_queue_mutex ≡ callback_holds s.callback
  pub enabled : s.frame_processing_enable ≡ enabled_at s.stopping
  pub waits : may_wait s.processing s.stopping ≡ true
  pub in_stop : is_stop s.stopping ≡ true
  pub ends : may_end s.processing s.frame_processing_enable ≡ true

pub started-Inv : Inv started
started-Inv = record {
  processing_owns = refl;
  stopping_owns = refl;
  callback_owns = refl;
  enabled = refl;
  waits = refl;
  in_stop = refl;
  ends = refl;
}

process_step-Inv :
    (p : Processing) (s t : Threads) → s.processing ≡ p → Inv s → process_step p s ≡ some t → Inv t
unfolding process_step
process_step-Inv Processing.testing s t e v h = ground arith
process_step-Inv Processing.locking s t e v h = ground arith
process_step-Inv Processing.checking s t e v h = ground arith
process_step-Inv Processing.parking s t e v h = ground arith
process_step-Inv Processing.sleeping s t e v h = ground arith
process_step-Inv Processing.woken s t e v h = ground arith
process_step-Inv Processing.popping s t e v h = ground arith
process_step-Inv Processing.ended s t e v h = ground arith
process_step-Inv (Processing.leaving none) s t e v h = ground arith
process_step-Inv (Processing.leaving (some f)) s t e v h = ground arith
process_step-Inv (Processing.handling f) s t e v h = ground arith

stop_step-Inv :
    (p : Stopping) (s t : Threads) → s.stopping ≡ p → Inv s → stop_step p s ≡ some t → Inv t
unfolding stop_step
stop_step-Inv Stopping.capturing s t e v h = ground arith
stop_step-Inv Stopping.disabling s t e v h = ground arith
stop_step-Inv Stopping.locking s t e v h = ground arith
stop_step-Inv Stopping.draining s t e v h = ground arith
stop_step-Inv Stopping.unlocking s t e v h = ground arith
stop_step-Inv Stopping.notifying s t e v h = ground arith
stop_step-Inv Stopping.joining s t e v h = ground arith
stop_step-Inv Stopping.abandoning s t e v h = ground arith
stop_step-Inv Stopping.alerting s t e v h = ground arith
stop_step-Inv Stopping.joined s t e v h = ground arith

call_back_step-Inv :
    (p : Callback) (s t : Threads) → s.callback ≡ p → Inv s → call_back_step p s ≡ some t → Inv t
unfolding call_back_step
call_back_step-Inv Callback.quiet s t e v h = ground arith
call_back_step-Inv (Callback.locking f) s t e v h = ground arith
call_back_step-Inv (Callback.pushing f) s t e v h = ground arith
call_back_step-Inv Callback.unlocking s t e v h = ground arith
call_back_step-Inv Callback.notifying s t e v h = ground arith

-- Every move keeps the invariant.
pub move_step-Inv : (m : Move) (s t : Threads) → Inv s → move_step m s ≡ some t → Inv t
unfolding move_step
move_step-Inv process s t v h = process_step-Inv s.processing s t refl v h
move_step-Inv stop s t v h = stop_step-Inv s.stopping s t refl v h
move_step-Inv call_back s t v h = call_back_step-Inv s.callback s t refl v h
move_step-Inv wake s t v h = ground arith
move_step-Inv (arrive f) s t v h = ground arith

pub move_run-Inv : (ms : List Move) (s t : Threads) → Inv s → move_run ms s ≡ some t → Inv t
unfolding move_run
move_run-Inv [] s t v h = ground arith
move_run-Inv (m ∷ ms) s t v h = elim (Option-cases (move_step m s)) [
  | inl e ↦ absurd (ground arith)
  | inr (u, e) ↦ move_run-Inv ms u t (move_step-Inv m s u v e) (ground arith)
]

-- At most one of three.
abbrev pub AtMostOne : Bool → Bool → Bool → Type 0
AtMostOne a b c =
    ((a ≡ false) × (b ≡ false)) ⊎ ((a ≡ false) × (c ≡ false)) ⊎ ((b ≡ false) × (c ≡ false))

AtMostOne-owns :
    (m : Option Thread) (a b c : Bool)
    → owns Thread.processing m ≡ a
    → owns Thread.stopper m ≡ b
    → owns Thread.library m ≡ c
    → AtMostOne a b c
AtMostOne-owns none a b c p q r = ground arith
AtMostOne-owns (some Thread.processing) a b c p q r = ground arith
AtMostOne-owns (some Thread.stopper) a b c p q r = ground arith
AtMostOne-owns (some Thread.library) a b c p q r = ground arith

awake :
    (p : Processing) (q : Stopping)
    → may_wait p q ≡ true
    → (q ≡ Stopping.joining) ⊎ (q ≡ Stopping.joined)
    → (p ≢ Processing.sleeping) × (p ≢ Processing.parking)
awake p q w (inl e) = (λ h. ground arith, λ h. ground arith)
awake p q w (inr e) = (λ h. ground arith, λ h. ground arith)

-- However the threads interleave from the start on, at most one of the three is in a block that the
-- mutex guards, and once stop_streaming has notified the processing thread, this thread neither sleeps
-- nor is about to: no notice is lost.
pub move_run-exclusive :
    (ms : List Move) (t : Threads)
    → move_run ms started ≡ some t
    → AtMostOne
        (processing_holds t.processing)
        (stopping_holds t.stopping)
        (callback_holds t.callback)
      × ((t.stopping ≡ Stopping.joining) ⊎ (t.stopping ≡ Stopping.joined)
          → (t.processing ≢ Processing.sleeping) × (t.processing ≢ Processing.parking))
move_run-exclusive ms t h =
    let v = move_run-Inv ms started t started-Inv h in
    (
      AtMostOne-owns t.frame_ready_queue_mutex _ _ _ v.processing_owns v.stopping_owns
          v.callback_owns,
      awake t.processing t.stopping v.waits,
    )
