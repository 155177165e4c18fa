-- ===== src/Camera/Threads/Falls.antt =====
-- How far the processing thread is from its end once stop_streaming has notified it.
use vimbax_ros2_driver.Common.{
  ℕ, suc, ◌+◌, ◌≤◌, ◌≡◌, refl, Bool, true, false, none, some, List, [], ◌∷◌, arith, Option-cases,
  inl, inr,
}
use mathlib.Core.Path.{subst}
use vimbax_ros2_driver.Camera.Threads.{
  Processing, Stopping, Callback, Threads, Move, process, stop, call_back, wake, arrive, move_step,
  move_run, process_step, stop_step, call_back_step,
}
use vimbax_ros2_driver.Camera.Threads.Inv.{Inv, move_step-Inv}

-- The moves that are left to the processing thread once the flag is reset.
abbrev pub rank : Processing → ℕ
rank Processing.ended = 0
rank Processing.testing = 1
rank (Processing.handling _) = 2
rank (Processing.leaving _) = 3
rank Processing.popping = 4
rank Processing.checking = 5
rank _ = 6

pub rank-le : (p : Processing) → rank p ≤ 6
rank-le Processing.ended = omega arith
rank-le Processing.testing = omega arith
rank-le (Processing.handling _) = omega arith
rank-le (Processing.leaving _) = omega arith
rank-le Processing.popping = omega arith
rank-le Processing.checking = omega arith
rank-le p = omega arith

abbrev pub process_moves : List Move → ℕ
process_moves [] = 0
process_moves (process ∷ ms) = suc (process_moves ms)
process_moves (_ ∷ ms) = process_moves ms

abbrev pub notified : Stopping → Bool
notified Stopping.joining = true
notified Stopping.joined = true
notified _ = false

-- What one move leaves of the rank.
abbrev Falls : Move → Threads → Threads → Type 0
Falls m s t =
    (notified t.stopping ≡ true) × (process_moves (m ∷ []) + rank t.processing ≤ rank s.processing)

process_step-Falls :
    (p : Processing) (s t : Threads)
    → s.processing ≡ p
    → Inv s
    → notified s.stopping ≡ true
    → process_step p s ≡ some t
    → Falls process s t
unfolding process_step
process_step-Falls Processing.testing s t e v n h = ground arith
process_step-Falls Processing.locking s t e v n h = ground arith
process_step-Falls Processing.checking s t e v n h = ground arith
process_step-Falls Processing.parking s t e v n h = ground arith
process_step-Falls Processing.sleeping s t e v n h = ground arith
process_step-Falls Processing.woken s t e v n h = ground arith
process_step-Falls Processing.popping s t e v n h = ground arith
process_step-Falls Processing.ended s t e v n h = ground arith
process_step-Falls (Processing.leaving none) s t e v n h = ground arith
process_step-Falls (Processing.leaving (some f)) s t e v n h = ground arith
process_step-Falls (Processing.handling f) s t e v n h = ground arith

stop_step-Falls :
    (p : Stopping) (s t : Threads)
    → s.stopping ≡ p
    → Inv s
    → notified s.stopping ≡ true
    → stop_step p s ≡ some t
    → Falls stop s t
unfolding stop_step
stop_step-Falls Stopping.joining s t e v n h = ground arith
stop_step-Falls Stopping.joined s t e v n h = ground arith
stop_step-Falls p s t e v n h = ground arith

call_back_step-Falls :
    (p : Callback) (s t : Threads)
    → s.callback ≡ p
    → Inv s
    → notified s.stopping ≡ true
    → call_back_step p s ≡ some t
    → Falls call_back s t
unfolding call_back_step
call_back_step-Falls Callback.quiet s t e v n h = ground arith
call_back_step-Falls (Callback.locking f) s t e v n h = ground arith
call_back_step-Falls (Callback.pushing f) s t e v n h = ground arith
call_back_step-Falls Callback.unlocking s t e v n h = ground arith
call_back_step-Falls Callback.notifying s t e v n h = ground arith

move_step-Falls :
    (m : Move) (s t : Threads)
    → Inv s
    → notified s.stopping ≡ true
    → move_step m s ≡ some t
    → Falls m s t
unfolding move_step
move_step-Falls process s t v n h = process_step-Falls s.processing s t refl v n h
move_step-Falls stop s t v n h = stop_step-Falls s.stopping s t refl v n h
move_step-Falls call_back s t v n h = call_back_step-Falls s.callback s t refl v n h
move_step-Falls wake s t v n h = ground arith
move_step-Falls (arrive f) s t v n h = ground arith

process_moves-cons :
    (m : Move) (ms : List Move) → process_moves (m ∷ ms) ≡ process_moves (m ∷ []) + process_moves ms
process_moves-cons process ms = omega arith
process_moves-cons stop ms = omega arith
process_moves-cons call_back ms = omega arith
process_moves-cons wake ms = omega arith
process_moves-cons (arrive f) ms = omega arith

pub move_run-Falls :
    (ms : List Move) (s t : Threads)
    → Inv s
    → notified s.stopping ≡ true
    → move_run ms s ≡ some t
    → Inv t
      × (notified t.stopping ≡ true)
      × (process_moves ms + rank t.processing ≤ rank s.processing)
unfolding move_run
move_run-Falls [] s t v n h =
    let e : s ≡ t = ground arith in
    subst
      (λ (u : Threads).
        Inv u × (notified u.stopping ≡ true) × (0 + rank u.processing ≤ rank s.processing))
      e (v, n, omega arith)
move_run-Falls (m ∷ ms) s t v n h = elim (Option-cases (move_step m s)) [
  | inl e ↦ absurd (ground arith)
  | inr (u, e) ↦
      let f = move_step-Falls m s u v n e in
      let w = move_step-Inv m s u v e in
      let r = move_run-Falls ms u t w f.0 (ground arith) in
      (r.0, r.1, omega (arith, r.2, f.1, process_moves-cons m ms))
]
