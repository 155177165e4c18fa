-- ===== src/Camera/Stream/Outcomes.antt =====
-- What start_streaming and stop_streaming leave behind.
use vimbax_ros2_driver.Common.{
  ℕ, zero, suc, ◌+◌, ◌≡◌, refl, Bool, true, false, Option, none, some, List, [], ◌∷◌, ◌++◌, arith,
  length, replicate, length-append, All, abort,
}
use mathlib.Core.List.{append-nil}
use vimbax_ros2_driver.Vmbc.{Api}
use vimbax_ros2_driver.Camera.{Camera, Frame, World, stopped, starting, active, stopping}
use vimbax_ros2_driver.Camera.Triple.{
  Triple, Leaves, Triple-bind, Triple-on_dev, Triple-attempt, Triple-deref, Triple-gets,
  Triple-update, Triple-guard, Triple-pure,
}
use vimbax_ros2_driver.Camera.Stream.{
  create_frames, queue_frames, start_acquisition, bring_up, start_from, start_streaming,
  stop_acquisition, end_processing, tear_down, stop_from, stop_streaming,
}

-- A frame that exists and reports to the callback.
abbrev pub IsWired : ℕ → Option Frame → Type 0
IsWired cb none = ⊥
IsWired cb (some f) = f.callback ≡ some cb

abbrev pub Starting : Camera → Type 0
Starting c = c.stream_state ≡ starting

abbrev pub Stopping : Camera → Type 0
Stopping c = c.stream_state ≡ stopping

-- The first frames are set, and the rest are null.
record Filled (done : List (Option Frame)) (left : ℕ) (c : Camera) : Type 0 where
  state : c.stream_state ≡ starting
  frames : c.frames ≡ done ++ replicate left none

record Ready (n cb : ℕ) (c : Camera) : Type 0 where
  state : c.stream_state ≡ starting
  count : length c.frames ≡ n
  set : All (IsWired cb) c.frames

record Processing (n cb : ℕ) (c : Camera) : Type 0 where
  ready : Ready n cb c
  thread : c.frame_processing_thread ≡ true
  enable : c.frame_processing_enable ≡ true

-- A stream with `n` frames that report to `cb`, and the thread that serves them.
pub record Streaming (n cb : ℕ) (c : Camera) : Type 0 where
  pub state : c.stream_state ≡ active
  pub count : length c.frames ≡ n
  pub set : All (IsWired cb) c.frames
  pub thread : c.frame_processing_thread ≡ true
  pub enable : c.frame_processing_enable ≡ true

-- No frames, no thread, and the given queue of frames to process.
pub record Idle (queue : List Frame) (c : Camera) : Type 0 where
  pub state : c.stream_state ≡ stopped
  pub frames : c.frames ≡ []
  pub thread : c.frame_processing_thread ≡ false
  pub ready : c.frame_ready_queue ≡ queue

All-snoc :
    (cb : ℕ) (xs : List (Option Frame)) (f : Frame)
    → All (IsWired cb) xs
    → f.callback ≡ some cb
    → All (IsWired cb) (xs ++ some f ∷ [])
All-snoc cb [] f h e = (e, tt)
All-snoc cb (x ∷ xs) f h e = (h.0, All-snoc cb xs f h.1 e)

module _ (api : Api) (n cb : ℕ) where
  create_frames-lem :
      (payload alignment i : ℕ) (done : List (Option Frame)) (left : ℕ)
      → All (IsWired cb) done
      → length done + left ≡ n
      → Triple Starting
          (Filled done left)
          (Ready n cb)
          (create_frames api payload alignment cb i done left)
  unfolding create_frames
  create_frames-lem payload alignment i done zero h e = Triple-pure (λ c p. record {
    state = p.state;
    count = rw (p.frames, append-nil done) (omega arith);
    set = rw (p.frames, append-nil done) h;
  })
  create_frames-lem payload alignment i done (suc left) h e =
      Triple-bind _ _ (Triple-on_dev _ (λ c p. p.state)) λ f.
        Triple-bind {R = Filled (done ++ some (record f { callback = some cb }) ∷ []) left} _ _
          (Triple-update _ (λ c p. record { state = p.state; frames = refl }))
          (λ _.
            create_frames-lem payload alignment (suc i) _ left (All-snoc cb done _ h refl)
              (omega (arith, length-append done (some (record f { callback = some cb }) ∷ []))))

  queue_frames-lem :
      (frames : List (Option Frame))
      → Triple Starting (Processing n cb) (Processing n cb) (queue_frames api frames)
  unfolding queue_frames abort
  queue_frames-lem [] = Triple-pure (λ c p. p)
  queue_frames-lem (none ∷ fs) = record { at = λ w p. p.ready.state }
  queue_frames-lem (some f ∷ fs) =
      Triple-bind _ _ (Triple-on_dev _ (λ c p. p.ready.state)) λ _. queue_frames-lem fs

  start_acquisition-lem :
      (b : Bool) → Triple Starting (Processing n cb) (Processing n cb) (start_acquisition api b)
  unfolding start_acquisition
  start_acquisition-lem true = Triple-on_dev _ (λ c p. p.ready.state)
  start_acquisition-lem false = Triple-pure (λ c p. p)

  -- The second half of bring_up, from the start of the processing thread.
  bring_up-lem :
      (acquisition : Bool)
      → Triple Starting Starting (Streaming n cb) (bring_up api n cb acquisition)
  unfolding bring_up
  bring_up-lem acquisition =
      Triple-bind {R = Filled [] n} _ _
        (Triple-update _ (λ c p. record { state = p; frames = refl }))
        λ _. Triple-bind _ _ (Triple-on_dev _ (λ c p. p.state)) λ payload.
          Triple-bind _ _ (Triple-attempt _ (Triple-on_dev _ (λ c p. p)) (λ c p. p.state)) λ res.
            Triple-bind _ _ (Triple-deref res (λ c p. p.state)) λ format.
              Triple-bind _ _ (Triple-guard _ _ (λ c p. p.state)) λ _.
                Triple-bind _ _ (Triple-on_dev _ (λ c p. p.state)) λ alignment.
                  Triple-bind _ _ (create_frames-lem payload alignment 0 [] n tt (omega arith)) λ _.
                    Triple-bind {R = Processing n cb} _ _
                      (Triple-update _ (λ c p. record {
                        ready = record { state = p.state; count = p.count; set = p.set };
                        thread = refl;
                        enable = refl;
                      }))
                      λ _. Triple-bind _ _ (Triple-on_dev _ (λ c p. p.ready.state)) λ _.
                        Triple-bind _ _ (Triple-gets _) λ frames.
                          Triple-bind _ _ (queue_frames-lem frames) λ _.
                            Triple-bind _ _ (start_acquisition-lem acquisition) λ _.
                              Triple-update _ (λ c p. record {
                                state = refl;
                                count = p.ready.count;
                                set = p.ready.set;
                                thread = p.thread;
                                enable = p.enable;
                              })

-- From a stopped camera, start_streaming either returns a value, and then exactly the requested
-- number of frames is set up, each reporting to the given callback, and the processing thread runs
-- for an active stream; or it ends otherwise, and then the state is kStarting.
pub start_streaming-Streaming :
    (api : Api) (n cb : ℕ) (acquisition : Bool) (w : World api.Dev)
    → w.camera.stream_state ≡ stopped
    → Leaves Starting (Streaming n cb) (start_streaming api n cb acquisition w)
unfolding start_streaming
start_streaming-Streaming api n cb acquisition w e =
    simp (e, start_from)
      ((Triple-bind {E = Starting} {P = λ c. c.stream_state ≡ stopped} {R = Starting} _ _
          (Triple-update _ (λ c p. refl)) (λ _. bring_up-lem api n cb acquisition)).at
        w e)

record Ending (c : Camera) : Type 0 where
  state : c.stream_state ≡ stopping
  thread : c.frame_processing_thread ≡ true

record Ended (c : Camera) : Type 0 where
  state : c.stream_state ≡ stopping
  thread : c.frame_processing_thread ≡ false
  ready : c.frame_ready_queue ≡ []

module _ (api : Api) where
  stop_acquisition-lem : (b : Bool) → Triple Stopping Ending Ending (stop_acquisition api b)
  unfolding stop_acquisition
  stop_acquisition-lem true = Triple-on_dev _ (λ c p. p.state)
  stop_acquisition-lem false = Triple-pure (λ c p. p)

  end_processing-Ended : (c : Camera) → Ending c → Ended (end_processing api c)
  end_processing-Ended c p = ground arith

  tear_down-lem : Triple Stopping Ending (Idle []) (tear_down api)
  unfolding tear_down
  tear_down-lem = Triple-bind _ _ (Triple-on_dev _ (λ c p. p.state)) λ alive.
      Triple-bind _ _ (stop_acquisition-lem alive) λ _.
        Triple-bind _ _ (Triple-on_dev _ (λ c p. p.state)) λ _.
          Triple-bind {R = Ended} _ _ (Triple-update _ end_processing-Ended) λ _.
            Triple-bind _ _ (Triple-on_dev _ (λ c p. p.state)) λ _.
              Triple-bind _ _ (Triple-on_dev _ (λ c p. p.state)) λ _.
                Triple-update _ (λ c p. record {
                  state = refl;
                  frames = refl;
                  thread = p.thread;
                  ready = p.ready;
                })

-- On an active stream, stop_streaming either returns a value, and then the camera is stopped with no
-- frame, no processing thread and nothing left to process; or it ends otherwise, and then the state
-- is kStopping.
pub stop_streaming-Idle :
    (api : Api) (n cb : ℕ) (w : World api.Dev)
    → Streaming n cb w.camera
    → Leaves Stopping (Idle []) (stop_streaming api w)
unfolding stop_streaming
stop_streaming-Idle api n cb w s =
    simp (s.state, stop_from)
      ((Triple-bind {E = Stopping} {P = Streaming n cb} {R = Ending} _ _
          (Triple-update _ (λ c p. record { state = refl; thread = p.thread }))
          (λ _. tear_down-lem api)).at
        w s)
