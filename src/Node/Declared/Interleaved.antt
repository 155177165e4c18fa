-- ===== src/Node/Declared/Interleaved.antt =====
-- The number of buffers under every interleaving of starts and changes.
use vimbax_ros2_driver.Common.{
  ℕ, ◌≤◌, ◌≡◌, refl, ap, ◌∙◌, Bool, true, false, Option, none, some, List, [], ◌∷◌, map, zero, suc,
  Exit, value, error, aborted, arith, Bool-cases, inl, inr, length, to_u64, All, get_elem?,
}
use mathlib.Core.Path.{subst}
use vimbax_ros2_driver.Vmbc.{Api}
use vimbax_ros2_driver.Camera.{Camera, active}
use vimbax_ros2_driver.Camera.Stream.Wedged.{StreamCall, start, stop}
use vimbax_ros2_driver.Camera.Stream.Sessions.{
  SessionIn, idle, streaming, broken_start, broken_stop, Within,
}
use vimbax_ros2_driver.Node.{NodeWorld}
use vimbax_ros2_driver.Node.Handlers.{Asks}
use vimbax_ros2_driver.Node.Sessions.{SessionInOf, run_event-SessionInOf}
use vimbax_ros2_driver.Node.Status.{on_set_parameters}
use vimbax_ros2_driver.Node.Steps.{Host, Event, set_parameters-Keeps}
use vimbax_ros2_driver.Node.Declared.{
  Setting, name_of, Values, all_checked, accept_if, check_if, check_parameters, store_accepted,
  store_parameters, ParameterDescriptor, HostState, HostStep, event, change, read_values,
  late_event, check_change, store_change, stream_parameters, host_with, event_with, run_host_step,
  run_host_steps,
}
use vimbax_ros2_driver.Node.Declared.Counted.{RangeLaw, Ranged, store_all-Ranged}

-- A number of buffers in the declared range.
abbrev pub InRange : ℕ → ℕ → Type 0
InRange n cb = (3 ≤ n) × (n ≤ 1000)

module _ (checks : ParameterDescriptor → Setting → Bool) where
  abbrev pub Checked : Option (List Setting) → Type 0
  Checked none = Unit {0}
  Checked (some ss) = all_checked checks ss ≡ true

  pub record Safe {D : Type 0} (s : HostState D) : Type 0 where
    pub now : Ranged s.values
    pub before : All Ranged s.reads
    pub next : Checked s.accepted
    pub camera : SessionInOf InRange s.world.node.camera

fits :
    (values : Values) (on_frame : ℕ) (call : StreamCall)
    → Ranged values
    → Asks (stream_parameters values on_frame) call
    → Within InRange call
fits values on_frame (start n cb acquisition) (k, v, low, high) a =
    let e : n ≡ k = a.0 ∙ ap to_u64 v ∙ omega (arith, high) in (omega (arith, e), omega (arith, e))
fits values on_frame stop r a = tt

get_elem?-Ranged :
    (reads : List Values) (i : ℕ) (values : Values)
    → All Ranged reads
    → get_elem? reads i ≡ some values
    → Ranged values
get_elem?-Ranged [] i values r e = absurd (ground arith)
get_elem?-Ranged (v ∷ reads) zero values r e =
    let h : v ≡ values = ground arith in subst Ranged h r.0
get_elem?-Ranged (v ∷ reads) (suc i) values r e = get_elem?-Ranged reads i values r.1 e

module _ (checks : ParameterDescriptor → Setting → Bool) (law : RangeLaw checks) where
  accept_if-Safe :
      {D : Type 0} (ss : List Setting) (s : HostState D) (r : Exit Bool × NodeWorld D)
      → all_checked checks ss ≡ true
      → SessionInOf InRange r.1.node.camera
      → Safe checks s
      → Safe checks (accept_if checks ss s r)
  accept_if-Safe ss s (value true, w) h c k = record {
    now = k.now;
    before = k.before;
    next = h;
    camera = c;
  }
  accept_if-Safe ss s (value false, w) h c k = record {
    now = k.now;
    before = k.before;
    next = k.next;
    camera = c;
  }
  accept_if-Safe ss s (error x, w) h c k = record {
    now = k.now;
    before = k.before;
    next = k.next;
    camera = c;
  }
  accept_if-Safe ss s (aborted x, w) h c k = record {
    now = k.now;
    before = k.before;
    next = k.next;
    camera = c;
  }

  check_if-Safe :
      {D : Type 0} (pending : Option (List Setting)) (ss : List Setting) (s : HostState D)
      → Safe checks s
      → Safe checks (check_if checks pending ss s)
  check_if-Safe (some p) ss s k = k
  check_if-Safe none ss s k = elim (Bool-cases (all_checked checks ss)) [
    | inl h ↦ rw h (
        accept_if-Safe ss s (on_set_parameters (map name_of ss) s.world) h
          ((set_parameters-Keeps {I = λ n. SessionInOf InRange n.camera} (map name_of ss)).at
            s.world k.camera)
          k)
    | inr h ↦ rw h k
  ]

  store_accepted-Safe :
      {D : Type 0} (pending : Option (List Setting)) (s : HostState D)
      → Checked checks pending
      → Safe checks s
      → Safe checks (store_accepted checks pending s)
  store_accepted-Safe none s c k = k
  store_accepted-Safe (some ss) s c k = record {
    now = store_all-Ranged checks law ss s.values c k.now;
    before = k.before;
    next = tt;
    camera = k.camera;
  }

  module _ (api : Api) (host : Host api) where
    event_with-Safe :
        (o : Option Values) (e : Event api.Float) (s : HostState api.Dev)
        → ((values : Values) → o ≡ some values → Ranged values)
        → Safe checks s
        → Safe checks (event_with checks api host o e s)
    event_with-Safe none e s r k = k
    event_with-Safe (some values) e s r k = record {
      now = k.now;
      before = k.before;
      next = k.next;
      camera =
          run_event-SessionInOf InRange api (host_with checks api host values)
            (λ call. fits values host.stream.on_frame call (r values refl)) e s.world k.camera;
    }

    run_host_step-Safe :
        (e : HostStep api.Float) (s : HostState api.Dev)
        → Safe checks s
        → Safe checks (run_host_step checks api host e s)
    unfolding run_host_step check_parameters store_parameters
    run_host_step-Safe (event e) s k =
        event_with-Safe (some s.values) e s
          (λ v h. let q : s.values ≡ v = ground arith in subst Ranged q k.now) k
    run_host_step-Safe (change ss) s k =
        let c = check_if-Safe s.accepted ss s k in store_accepted-Safe _ _ c.next c
    run_host_step-Safe read_values s k = record {
      now = k.now;
      before = (k.now, k.before);
      next = k.next;
      camera = k.camera;
    }
    run_host_step-Safe (late_event i e) s k =
        event_with-Safe (get_elem? s.reads i) e s (λ v h. get_elem?-Ranged s.reads i v k.before h) k
    run_host_step-Safe (check_change ss) s k = check_if-Safe s.accepted ss s k
    run_host_step-Safe store_change s k = store_accepted-Safe s.accepted s k.next k

    run_host_steps-Safe :
        (es : List (HostStep api.Float)) (s : HostState api.Dev)
        → Safe checks s
        → Safe checks (run_host_steps checks api host es s)
    run_host_steps-Safe [] s k = k
    run_host_steps-Safe (e ∷ es) s k = run_host_steps-Safe es _ (run_host_step-Safe e s k)

frames_of-InRange :
    (c : Camera)
    → SessionIn InRange c
    → c.stream_state ≡ active
    → (3 ≤ length c.frames) × (length c.frames ≤ 1000)
frames_of-InRange c (idle h) a = let s = h.state in absurd (ground arith)
frames_of-InRange c (streaming n cb p h) a =
    let e = h.count in (omega (arith, e, p.0), omega (arith, e, p.1))
frames_of-InRange c (broken_start h) a = absurd (ground arith)
frames_of-InRange c (broken_stop h) a = absurd (ground arith)

-- Suppose that ROS, as it documents, refuses a value outside the declared integer range. Start with a
-- buffer_count from 3 to 1000, no values read and no change under way, and a camera that is idle, or
-- streams with 3 to 1000 buffers, or was left in kStarting or kStopping, or none. Then, however the reads
-- of the parameters, the steps of the node that use what was read, the checks of changes and their
-- storing interleave, a camera that streams has 3 to 1000 buffers, and buffer_count is from 3 to 1000.
pub run_host_steps-range :
    (checks : ParameterDescriptor → Setting → Bool) (api : Api) (host : Host api)
    (es : List (HostStep api.Float)) (s t : HostState api.Dev) (c : Camera)
    → RangeLaw checks
    → Ranged s.values
    → s.reads ≡ []
    → s.accepted ≡ none
    → SessionInOf InRange s.world.node.camera
    → run_host_steps checks api host es s ≡ t
    → t.world.node.camera ≡ some c
    → c.stream_state ≡ active
    → Ranged t.values × (3 ≤ length c.frames) × (length c.frames ≤ 1000)
run_host_steps-range checks api host es s t c law now reads none_yet camera r e a =
    let start : Safe checks s = record {
      now = now;
      before = rw reads tt;
      next = rw none_yet tt;
      camera = camera;
    } in
    let k = subst (Safe checks) r (run_host_steps-Safe checks law api host es s start) in
    let f = frames_of-InRange c (subst (SessionInOf InRange) e k.camera) a in (k.now, f.0, f.1)
