-- ===== src/Node/Sessions.antt =====
-- The camera of a node, through any sequence of its steps.
use vimbax_ros2_driver.Common.{
  ℕ, zero, suc, ◌≡◌, refl, Option, none, some, List, [], ◌∷◌, foldl, Exit, value, error, aborted,
  Act, continue, ◌>>=◌, Bool, true, false, ◌&&◌, not, codes, str_eq,
}
use mathlib.Core.Path.{subst}
use vimbax_ros2_driver.Vmbc.{Api}
use vimbax_ros2_driver.Camera.{Camera}
use vimbax_ros2_driver.Camera.Stream.Sessions.{
  SessionIn, Any, idle, streaming, broken_start, broken_stop, run_call-SessionIn, Within,
  unrestricted,
}
use vimbax_ros2_driver.Node.{Node, NodeWorld}
use vimbax_ros2_driver.Camera.Open.Opened.{FreshIfAny}
use vimbax_ros2_driver.Node.Connection.Changes.{Connects, reconnect-Turns}
use vimbax_ros2_driver.Node.Connection.Notices.{discovery-Turns}
use vimbax_ros2_driver.Node.Handlers.{Closed, Asks}
use vimbax_ros2_driver.Camera.Stream.Wedged.{StreamCall}
use vimbax_ros2_driver.Node.Stream.{Parameters}
use vimbax_ros2_driver.Node.Steps.{
  Host, Event, service, discovery, reconnect_thread, run_event, run_events, run_service-Closed,
  run_thread,
}

-- The node's camera, if it has one, keeps the promises of its stream state.
abbrev pub SessionInOf : (ℕ → ℕ → Type 0) → Option Camera → Type 0
SessionInOf P none = Unit {0}
SessionInOf P (some c) = SessionIn P c

abbrev pub SessionOf : Option Camera → Type 0
SessionOf = SessionInOf Any

callbacks-SessionIn :
    (P : ℕ → ℕ → Type 0) (c : Camera) (m : List (vimbax_ros2_driver.Common.String × ℕ))
    → SessionIn P c
    → SessionIn P (record c { invalidation_callbacks = m })
callbacks-SessionIn P c m (idle h) =
    idle (record { state = h.state; frames = h.frames; thread = h.thread; ready = h.ready })
callbacks-SessionIn P c m (streaming n cb a h) =
    streaming n cb a (record {
      state = h.state;
      count = h.count;
      set = h.set;
      thread = h.thread;
      enable = h.enable;
    })
callbacks-SessionIn P c m (broken_start h) = broken_start h
callbacks-SessionIn P c m (broken_stop h) = broken_stop h

pub FreshIfAny-SessionInOf :
    (P : ℕ → ℕ → Type 0) (o : Option Camera) → FreshIfAny o → SessionInOf P o
FreshIfAny-SessionInOf P none f = tt
FreshIfAny-SessionInOf P (some c) (handle, f) = idle (record {
  state = f.idle.state;
  frames = f.idle.frames;
  thread = f.idle.thread;
  ready = f.idle.ready;
})

module _ (P : ℕ → ℕ → Type 0) where
  abbrev NodeSession : Node → Type 0
  NodeSession n = SessionInOf P n.camera

  NodeSession-Closed :
      (api : Api) (parameters : Parameters)
      → ((call : StreamCall) → Asks parameters call → Within P call)
      → Closed api parameters NodeSession
  NodeSession-Closed api parameters fits = record {
    calls = λ call n c d a e h.
        run_call-SessionIn api P call _ (fits call a) (subst (SessionInOf P) e h);
    callbacks = λ n c m e h. callbacks-SessionIn P c m (subst (SessionInOf P) e h);
    stopped_flag = λ n b h. h;
    restart_flag = λ n b h. h;
    last_frame = λ n h. h;
  }

  NodeSession-Connects : Connects (λ n. Unit {0}) NodeSession NodeSession
  NodeSession-Connects = record {
    lost = λ n b h. tt;
    found = λ n e u h. h;
    thread = λ n k e h. h;
    set = λ n o f h. FreshIfAny-SessionInOf P o f;
    remembered = λ n id h. h;
    opened = λ n c e h. h;
    restarted = λ n b h. h;
    back = λ n h. h;
  }

  module _ (api : Api) (host : Host api)
      (fits : (call : StreamCall) → Asks host.stream call → Within P call) where
    run_thread-SessionInOf :
        (k : ℕ) (w : NodeWorld api.Dev)
        → SessionInOf P w.node.camera
        → SessionInOf P (run_thread api host k w).node.camera
    unfolding run_thread
    run_thread-SessionInOf zero w h = h
    run_thread-SessionInOf (suc k) w h =
        (reconnect-Turns api host.fs host.camera NodeSession-Connects).at
          (record w { node = record w.node { reconnects = k } }) h

    pub run_event-SessionInOf :
        (e : Event api.Float) (w : NodeWorld api.Dev)
        → SessionInOf P w.node.camera
        → SessionInOf P (run_event api host e w).node.camera
    unfolding run_event
    run_event-SessionInOf (service s) w h =
        run_service-Closed api host (NodeSession-Closed api host.stream fits) s w h
    run_event-SessionInOf (discovery handle) w h =
        (discovery-Turns api NodeSession-Connects handle).at w (h, tt)
    run_event-SessionInOf reconnect_thread w h = run_thread-SessionInOf w.node.reconnects w h

-- If the camera of the node is idle, or streams with all its frames set to one callback and its thread
-- running, or was left in kStarting or kStopping by a call that failed, or if there is none, then this
-- holds again after any sequence of requests to the services of the node, of calls of its publishers of
-- events, of rounds of the thread that follows the subscribers, whole or in their parts, of notices that a camera came or went,
-- and of threads that open the camera again.
pub run_events-SessionOf :
    (api : Api) (host : Host api) (es : List (Event api.Float)) (w : NodeWorld api.Dev)
    → SessionOf w.node.camera
    → SessionOf (run_events api host es w).node.camera
run_events-SessionOf api host [] w h = h
run_events-SessionOf api host (e ∷ es) w h =
    run_events-SessionOf api host es _
      (run_event-SessionInOf Any api host (λ call a. unrestricted call) e w h)
