-- ===== src/Node/Declared/Buffers.antt =====
-- A stream and the parameter that gives its number of buffers, over any sequence of steps.
use vimbax_ros2_driver.Common.{
  ℕ, ◌≤◌, ◌≡◌, refl, ap, sym, ◌∙◌, Bool, true, false, Option, none, some, List, [], ◌∷◌, map, pos,
  Exit, value, error, aborted, arith, Bool-cases, inl, inr, length, to_u64,
}
use mathlib.Core.Path.{subst}
use vimbax_ros2_driver.Vmbc.{Api}
use vimbax_ros2_driver.Camera.{Camera, active}
use vimbax_ros2_driver.Camera.Stream.Wedged.{StreamCall, start, stop}
use vimbax_ros2_driver.Camera.Stream.Sessions.{
  SessionIn, idle, streaming, broken_start, broken_stop, Within,
}
use vimbax_ros2_driver.Node.{NodeWorld}
use vimbax_ros2_driver.Node.Handlers.{Asks}
use vimbax_ros2_driver.Node.Sessions.{run_event-SessionInOf}
use vimbax_ros2_driver.Node.Status.{on_set_parameters}
use vimbax_ros2_driver.Node.Steps.{Host, set_parameters-Keeps}
use vimbax_ros2_driver.Node.Declared.{
  Setting, name_of, Values, all_checked, accept_if, check_if, check_parameters, store_accepted,
  store_parameters, ParameterDescriptor, HostState, HostStep, event, change, read_values,
  late_event, check_change, store_change, stream_parameters, host_with, run_host_step,
  run_host_steps,
}
use vimbax_ros2_driver.Node.Declared.Counted.{
  Sized, SizedOf, Harmless, SizedOf-store_all, accepted, RangeLaw, Ranged, store_all-Ranged,
}

-- No step of a thread comes between its read of the parameters and its use of them, nor between the
-- check of a change and its storing.
abbrev pub Apart : {F : Type 0} → List (HostStep F) → Type 0
Apart [] = Unit {0}
Apart (event e ∷ es) = Apart es
Apart (change ss ∷ es) = Apart es
Apart (e ∷ es) = ⊥

record Kept {D : Type 0} (s : HostState D) : Type 0 where
  now : Ranged s.values
  idle_change : s.accepted ≡ none
  camera : SizedOf s.values s.world.node.camera

fits :
    (values : Values) (on_frame : ℕ) (call : StreamCall)
    → Asks (stream_parameters values on_frame) call
    → Within (Sized values) call
fits values on_frame (start n cb acquisition) a = a.0
fits values on_frame stop a = tt

module _ (checks : ParameterDescriptor → Setting → Bool) (law : RangeLaw checks) where
  store_accepted-Kept :
      {D : Type 0} (pending : Option (List Setting)) (s : HostState D)
      → pending ≡ none
      → Kept s
      → Kept (store_accepted checks pending s)
  store_accepted-Kept none s e k = k
  store_accepted-Kept (some ss) s e k = absurd (ground arith)

  -- Nothing was accepted.
  refused-Kept :
      {D : Type 0} (s : HostState D) (w : NodeWorld D)
      → SizedOf s.values w.node.camera
      → Kept s
      → Kept (store_parameters checks (record s { world = w }))
  unfolding store_parameters
  refused-Kept s w c k =
      store_accepted-Kept s.accepted (record s { world = w }) k.idle_change
        (record { now = k.now; idle_change = k.idle_change; camera = c })

  accept_if-Kept :
      {D : Type 0} (ss : List Setting) (s : HostState D) (r : Exit Bool × NodeWorld D)
      → on_set_parameters (map name_of ss) s.world ≡ r
      → all_checked checks ss ≡ true
      → SizedOf s.values r.1.node.camera
      → Kept s
      → Kept (store_parameters checks (accept_if checks ss s r))
  unfolding store_parameters
  accept_if-Kept ss s (value true, w') e h c k =
      let a = accepted ss s.world w' e in
      record {
        now = store_all-Ranged checks law ss s.values h k.now;
        idle_change = refl;
        camera =
            SizedOf-store_all ss s.values w'.node.camera
              (subst (λ n. Harmless ss n.camera) (sym a.0) a.1) c;
      }
  accept_if-Kept ss s (value false, w') e h c k = refused-Kept s w' c k
  accept_if-Kept ss s (error x, w') e h c k = refused-Kept s w' c k
  accept_if-Kept ss s (aborted x, w') e h c k = refused-Kept s w' c k

  check_if-Kept :
      {D : Type 0} (pending : Option (List Setting)) (ss : List Setting) (s : HostState D)
      → pending ≡ none
      → Kept s
      → Kept (store_parameters checks (check_if checks pending ss s))
  check_if-Kept (some p) ss s e k = absurd (ground arith)
  check_if-Kept none ss s e k = elim (Bool-cases (all_checked checks ss)) [
    | inl h ↦ rw h (
        accept_if-Kept ss s (on_set_parameters (map name_of ss) s.world) refl h
          ((set_parameters-Keeps {I = λ n. SizedOf s.values n.camera} (map name_of ss)).at s.world
            k.camera)
          k)
    | inr h ↦ rw h (refused-Kept s s.world k.camera k)
  ]

  run_host_steps-Kept :
      (api : Api) (host : Host api) (es : List (HostStep api.Float)) (s : HostState api.Dev)
      → Apart es
      → Kept s
      → Kept (run_host_steps checks api host es s)
  unfolding run_host_step check_parameters
  run_host_steps-Kept api host [] s p k = k
  run_host_steps-Kept api host (event e ∷ es) s p k = run_host_steps-Kept api host es _ p (record {
    now = k.now;
    idle_change = k.idle_change;
    camera =
        run_event-SessionInOf (Sized s.values) api (host_with checks api host s.values)
          (fits s.values host.stream.on_frame) e s.world k.camera;
  })
  run_host_steps-Kept api host (change ss ∷ es) s p k =
      run_host_steps-Kept api host es _ p (check_if-Kept s.accepted ss s k.idle_change k)
  run_host_steps-Kept api host (read_values ∷ es) s p k = absurd p
  run_host_steps-Kept api host (late_event i e ∷ es) s p k = absurd p
  run_host_steps-Kept api host (check_change ss ∷ es) s p k = absurd p
  run_host_steps-Kept api host (store_change ∷ es) s p k = absurd p

frames_of-Sized :
    (values : Values) (c : Camera)
    → SessionIn (Sized values) c
    → c.stream_state ≡ active
    → length c.frames ≡ to_u64 values.buffer_count_value
frames_of-Sized values c (idle h) a = let s = h.state in absurd (ground arith)
frames_of-Sized values c (streaming n cb p h) a = h.count ∙ p
frames_of-Sized values c (broken_start h) a = absurd (ground arith)
frames_of-Sized values c (broken_stop h) a = absurd (ground arith)

-- Suppose that ROS, as it documents, refuses a value outside the declared integer range. Start with a
-- buffer_count from 3 to 1000, no change under way, and a camera that is idle, or streams with as many
-- buffers, or was left in kStarting or kStopping, or none. Then, after any sequence of changes and of steps
-- of the node, if no step comes between a thread's read of the parameters and its use of them, nor between
-- the check of a change and its storing, a camera that streams has exactly as many buffers as
-- buffer_count says then, and that is still a number from 3 to 1000.
pub run_host_steps-buffers :
    (checks : ParameterDescriptor → Setting → Bool) (api : Api) (host : Host api)
    (es : List (HostStep api.Float)) (s t : HostState api.Dev) (c : Camera)
    → RangeLaw checks
    → Apart es
    → Ranged s.values
    → s.accepted ≡ none
    → SizedOf s.values s.world.node.camera
    → run_host_steps checks api host es s ≡ t
    → t.world.node.camera ≡ some c
    → c.stream_state ≡ active
    → (n : ℕ) × (t.values.buffer_count_value ≡ pos n) × (3 ≤ n) × (n ≤ 1000) × (length c.frames ≡ n)
run_host_steps-buffers checks api host es s t c law apart ranged none_yet sized r e a =
    let start : Kept s = record { now = ranged; idle_change = none_yet; camera = sized } in
    let k = subst Kept r (run_host_steps-Kept checks law api host es s apart start) in
    let (n, v, low, high) = k.now in
    let h : SessionIn (Sized t.values) c = subst (SizedOf t.values) e k.camera in
    (n, v, low, high, frames_of-Sized t.values c h a ∙ ap to_u64 v ∙ omega (arith, high))
