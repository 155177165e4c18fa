-- ===== src/Camera/Stream/Sessions.antt =====
-- Any sequence of start and stop calls on a camera.
use vimbax_ros2_driver.Common.{ℕ, List, [], ◌∷◌, Exit, value, error, aborted, fail, pure}
use vimbax_ros2_driver.Vmbc.{Api}
use vimbax_ros2_driver.Camera.{Camera, World}
use vimbax_ros2_driver.Camera.Triple.{Leaves}
use vimbax_ros2_driver.Camera.Stream.{start_from, start_streaming, stop_from, stop_streaming}
use vimbax_ros2_driver.Camera.Stream.Outcomes.{
  Starting, Stopping, Streaming, Idle, start_streaming-Streaming, stop_streaming-Idle,
}
use vimbax_ros2_driver.Camera.Stream.Wedged.{StreamCall, start, stop, run_call, run_calls}

-- What each stream state promises of the camera.
-- `P` holds of the number of frames and of the callback of a start.
pub data SessionIn (P : ℕ → ℕ → Type 0) (c : Camera) : Type 0 where
  idle : Idle [] c → SessionIn P c
  streaming : (n cb : ℕ) → P n cb → Streaming n cb c → SessionIn P c
  broken_start : Starting c → SessionIn P c
  broken_stop : Stopping c → SessionIn P c

abbrev pub Any : ℕ → ℕ → Type 0
Any n cb = Unit {0}

abbrev pub Session : Camera → Type 0
Session = SessionIn Any

abbrev pub Within : (ℕ → ℕ → Type 0) → StreamCall → Type 0
Within P (start n cb acquisition) = P n cb
Within P stop = Unit {0}

pub unrestricted : (call : StreamCall) → Within Any call
unrestricted (start n cb acquisition) = tt
unrestricted stop = tt

module _ (api : Api) (P : ℕ → ℕ → Type 0) where
  Leaves-SessionIn :
      (E Q : Camera → Type 0) (r : Exit (Unit {0}) × World api.Dev)
      → Leaves E Q r
      → ((c : Camera) → E c → SessionIn P c)
      → ((c : Camera) → Q c → SessionIn P c)
      → SessionIn P r.1.camera
  Leaves-SessionIn E Q (value a, w) h e q = q w.camera h
  Leaves-SessionIn E Q (error x, w) h e q = e w.camera h
  Leaves-SessionIn E Q (aborted x, w) h e q = e w.camera h

  pub run_call-SessionIn :
      (c : StreamCall) (w : World api.Dev)
      → Within P c
      → SessionIn P w.camera
      → SessionIn P (run_call api c w).1.camera
  unfolding run_call
  run_call-SessionIn (start n cb acquisition) w q (idle h) =
      Leaves-SessionIn Starting (Streaming n cb) _
        (start_streaming-Streaming api n cb acquisition w h.state) (λ c p. broken_start p)
        (λ c p. streaming n cb q p)
  run_call-SessionIn (start n cb acquisition) w q (streaming m k a h) =
      unfold start_streaming pure in simp (h.state, start_from) (streaming m k a h)
  run_call-SessionIn (start n cb acquisition) w q (broken_start h) =
      unfold start_streaming fail in simp (h, start_from) (broken_start h)
  run_call-SessionIn (start n cb acquisition) w q (broken_stop h) =
      unfold start_streaming fail in simp (h, start_from) (broken_stop h)
  run_call-SessionIn stop w q (idle h) =
      unfold stop_streaming pure in simp (h.state, stop_from) (idle h)
  run_call-SessionIn stop w q (streaming m k a h) =
      Leaves-SessionIn Stopping (Idle []) _ (stop_streaming-Idle api m k w h) (λ c p. broken_stop p)
        (λ c p. idle p)
  run_call-SessionIn stop w q (broken_start h) =
      unfold stop_streaming fail in simp (h, stop_from) (broken_start h)
  run_call-SessionIn stop w q (broken_stop h) =
      unfold stop_streaming fail in simp (h, stop_from) (broken_stop h)

pub run_call-Session :
    (api : Api) (c : StreamCall) (w : World api.Dev)
    → Session w.camera
    → Session (run_call api c w).1.camera
run_call-Session api c w h = run_call-SessionIn api Any c w (unrestricted c) h

-- If a camera is idle (stopped, with no frame, no thread and an empty queue), or streams (active, with
-- all its frames set to one callback and a running thread), or is in kStarting or kStopping, then it is
-- in one of these conditions again after any sequence of starts and stops, failing or not.
pub run_calls-Session :
    (api : Api) (cs : List StreamCall) (w : World api.Dev)
    → Session w.camera
    → Session (run_calls api cs w).1.camera
unfolding run_calls
run_calls-Session api [] w h = h
run_calls-Session api (c ∷ cs) w h =
    run_calls-Session api cs (run_call api c w).1 (run_call-Session api c w h)
