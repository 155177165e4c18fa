-- ===== src/Camera/Stream/Wedged.antt =====
-- What a failed start or stop does to the calls that follow it.
use vimbax_ros2_driver.Common.{
  ℕ, ◌≡◌, refl, Bool, List, [], ◌∷◌, ◌⊎◌, inl, inr, Exit, value, error, aborted, Act, map, fail,
}
use vimbax_ros2_driver.Error.{invalid_call}
use vimbax_ros2_driver.Vmbc.{Api}
use vimbax_ros2_driver.Camera.{Camera, World, stopped}
use vimbax_ros2_driver.Camera.Triple.{Leaves}
use vimbax_ros2_driver.Camera.Stream.{start_from, start_streaming, stop_from, stop_streaming}
use vimbax_ros2_driver.Camera.Stream.Outcomes.{
  Starting, Stopping, Streaming, Idle, start_streaming-Streaming, stop_streaming-Idle,
}

-- The calls that a client makes on a camera.
pub data StreamCall : Type 0 where
  start : ℕ → ℕ → Bool → StreamCall
  stop : StreamCall

-- Whether a body ended without a value.
abbrev pub IsFailure : Exit (Unit {0}) → Type 0
IsFailure (value a) = ⊥
IsFailure (error e) = Unit {0}
IsFailure (aborted x) = Unit {0}

module _ (api : Api) where
  unfoldable pub run_call : StreamCall → Act (World api.Dev) (Unit {0})
  run_call (start n cb acquisition) = start_streaming api n cb acquisition
  run_call stop = stop_streaming api

  -- A sequence of calls: how each of them ends, and the world after them.
  unfoldable pub run_calls :
      List StreamCall → World api.Dev → List (Exit (Unit {0})) × World api.Dev
  unfolding run_call
  run_calls [] w = ([], w)
  run_calls (c ∷ cs) w =
      let (e, w') = run_call c w in let (es, w'') = run_calls cs w' in (e ∷ es, w'')

  -- The state in which every call is refused.
  abbrev pub IsWedged : World api.Dev → Type 0
  IsWedged w = Starting w.camera ⊎ Stopping w.camera

  run_call-wedged :
      (c : StreamCall) (w : World api.Dev) → IsWedged w → run_call c w ≡ (error invalid_call, w)
  unfolding run_call start_streaming stop_streaming fail
  run_call-wedged (start n cb acquisition) w (inl e) = rw (e, start_from)
  run_call-wedged (start n cb acquisition) w (inr e) = rw (e, start_from)
  run_call-wedged stop w (inl e) = rw (e, stop_from)
  run_call-wedged stop w (inr e) = rw (e, stop_from)

  run_calls-wedged :
      (cs : List StreamCall) (w : World api.Dev)
      → IsWedged w
      → run_calls cs w ≡ (map (λ _. error invalid_call) cs, w)
  unfolding run_calls
  run_calls-wedged [] w h = refl
  run_calls-wedged (c ∷ cs) w h = rw (run_call-wedged c w h, run_calls-wedged cs w h)

  leaves_failure :
      (E Q : Camera → Type 0) (r : Exit (Unit {0}) × World api.Dev)
      → Leaves E Q r
      → IsFailure r.0
      → E r.1.camera
  leaves_failure E Q (value a, w) h f = elim f [ ]
  leaves_failure E Q (error e, w) h f = h
  leaves_failure E Q (aborted x, w) h f = h

-- Once start_streaming has failed on a stopped camera, every later start and stop is refused with
-- VmbErrorInvalidCall, and none of them changes the camera or calls the library.
pub failed_start_wedges :
    (api : Api) (n cb : ℕ) (acquisition : Bool) (w : World api.Dev)
    → w.camera.stream_state ≡ stopped
    → IsFailure (start_streaming api n cb acquisition w).0
    → (cs : List StreamCall)
    → let w' = (start_streaming api n cb acquisition w).1 in
      run_calls api cs w' ≡ (map (λ _. error invalid_call) cs, w')
failed_start_wedges api n cb acquisition w e f cs = run_calls-wedged api cs _ (
    inl (
      leaves_failure api Starting (Streaming n cb) _
        (start_streaming-Streaming api n cb acquisition w e) f))

-- Once stop_streaming has failed on an active stream, every later start and stop is refused with
-- VmbErrorInvalidCall, and none of them changes the camera or calls the library.
pub failed_stop_wedges :
    (api : Api) (n cb : ℕ) (w : World api.Dev)
    → Streaming n cb w.camera
    → IsFailure (stop_streaming api w).0
    → (cs : List StreamCall)
    → let w' = (stop_streaming api w).1 in
      run_calls api cs w' ≡ (map (λ _. error invalid_call) cs, w')
failed_stop_wedges api n cb w s f cs =
    run_calls-wedged api cs _
      (inr (leaves_failure api Stopping (Idle []) _ (stop_streaming-Idle api n cb w s) f))
