-- ===== src/Node/Connection/Holds.antt =====
-- A node that is available has a camera.
use vimbax_ros2_driver.Common.{
  ℕ, zero, suc, ◌≡◌, ◌≢◌, refl, Bool, true, false, Option, none, some, List, [], ◌∷◌, arith, ◌⊎◌,
  inl, inr,
}
use vimbax_ros2_driver.Vmbc.{Api}
use vimbax_ros2_driver.Node.{Node, NodeWorld}
use vimbax_ros2_driver.Camera.Command.Ends.{ClockLaws}
use vimbax_ros2_driver.Node.Replies.{Answers}
use vimbax_ros2_driver.Node.Answers.{handle-Answers}
use vimbax_ros2_driver.Node.Services.{Request, handle}
use vimbax_ros2_driver.Node.Handlers.{Closed}
use vimbax_ros2_driver.Node.Connection.Changes.{Connects, reconnect-Turns}
use vimbax_ros2_driver.Node.Connection.Notices.{discovery-Turns}
use vimbax_ros2_driver.Node.Stream.{Parameters}
use vimbax_ros2_driver.Node.Steps.{
  Host, Event, service, discovery, reconnect_thread, run_event, run_events, run_service-Closed,
  run_thread,
}

-- While the camera is available, there is one and no thread waits to open it; at most one thread waits.
pub record Attached (n : Node) : Type 0 where
  pub has_camera : n.is_available ≡ true → n.camera ≢ none
  pub alone : n.is_available ≡ true → n.reconnects ≡ 0
  pub single : (n.reconnects ≡ 0) ⊎ (n.reconnects ≡ 1)

-- No thread waits.
abbrev pub IsSettled : Node → Type 0
IsSettled n = n.reconnects ≡ 0

-- What the only thread finds.
pub record Waiting (n : Node) : Type 0 where
  pub away : n.is_available ≡ false
  pub none_left : n.reconnects ≡ 0

Attached-Closed : (api : Api) (parameters : Parameters) → Closed api parameters Attached
Attached-Closed api parameters = record {
  calls = λ call n c d a e h. record { has_camera = λ a. cc; alone = h.alone; single = h.single };
  callbacks = λ n c m e h. record { has_camera = λ a. cc; alone = h.alone; single = h.single };
  stopped_flag = λ n b h. record { has_camera = h.has_camera; alone = h.alone; single = h.single };
  restart_flag = λ n b h. record { has_camera = h.has_camera; alone = h.alone; single = h.single };
  last_frame = λ n h. record { has_camera = h.has_camera; alone = h.alone; single = h.single };
}

Attached-found :
    (n : Node)
    → n.camera ≡ none
    → IsSettled n
    → Attached n
    → Attached (record n { reconnects = suc n.reconnects })
Attached-found n e s h = record {
  has_camera = h.has_camera;
  alone = λ a. absurd (h.has_camera a e);
  single = inr (ground (arith, s));
}

Attached-thread :
    (n : Node) (k : ℕ) → n.reconnects ≡ suc k → Attached n → Waiting (record n { reconnects = k })
Attached-thread n k e h = record {
  away = elim (vimbax_ros2_driver.Common.Bool-cases n.is_available) [
    | inl a ↦ absurd (ground (arith, h.alone a))
    | inr a ↦ a
  ];
  none_left = elim h.single [ inl s ↦ absurd (ground arith) | inr s ↦ ground arith ];
}

pub Waiting-back : (n : Node) → Waiting n → Attached n
Waiting-back n h = record {
  has_camera = λ a. absurd (ground (arith, h.away));
  alone = λ a. h.none_left;
  single = inl h.none_left;
}

pub Attached-Connects : Connects IsSettled Attached Waiting
Attached-Connects = record {
  lost = λ n b h. record { has_camera = λ a. cc; alone = λ a. cc; single = h.single };
  found = Attached-found;
  thread = Attached-thread;
  set = λ n o f h. record { away = h.away; none_left = h.none_left };
  remembered = λ n id h. record { away = h.away; none_left = h.none_left };
  opened = λ n c e h. record {
    has_camera = λ a. cc;
    alone = λ a. h.none_left;
    single = inl h.none_left;
  };
  restarted = λ n b h. record { has_camera = h.has_camera; alone = h.alone; single = h.single };
  back = Waiting-back;
}

module _ (api : Api) (host : Host api) where
  -- A notice that a camera came or went arrives only when no thread waits.
  abbrev pub InTurn : Event api.Float → NodeWorld api.Dev → Type 0
  InTurn (service s) w = Unit {0}
  InTurn (discovery handle) w = IsSettled w.node
  InTurn reconnect_thread w = Unit {0}

  abbrev pub AllInTurn : List (Event api.Float) → NodeWorld api.Dev → Type 0
  AllInTurn [] w = Unit {0}
  AllInTurn (e ∷ es) w = InTurn e w × AllInTurn es (run_event api host e w)

  run_thread-Attached :
      (k : ℕ) (w : NodeWorld api.Dev)
      → w.node.reconnects ≡ k
      → Attached w.node
      → Attached (run_thread api host k w).node
  unfolding run_thread
  run_thread-Attached zero w e h = h
  run_thread-Attached (suc k) w e h =
      (reconnect-Turns api host.fs host.camera Attached-Connects).at
        (record w { node = record w.node { reconnects = k } }) (Attached-thread w.node k e h)

  run_event-Attached :
      (e : Event api.Float) (w : NodeWorld api.Dev)
      → InTurn e w
      → Attached w.node
      → Attached (run_event api host e w).node
  unfolding run_event
  run_event-Attached (service s) w t h =
      run_service-Closed api host (Attached-Closed api host.stream) s w h
  run_event-Attached (discovery handle) w t h =
      (discovery-Turns api Attached-Connects handle).at w (h, t)
  run_event-Attached reconnect_thread w t h = run_thread-Attached w.node.reconnects w refl h

-- Take a node whose camera is there while it is available, with no thread waiting while it is available
-- and at most one at any time. After any sequence of its steps in which a notice that a camera came or
-- went never arrives while a thread waits to open the camera, this holds again.
pub run_events-Attached :
    (api : Api) (host : Host api) (es : List (Event api.Float)) (w : NodeWorld api.Dev)
    → AllInTurn api host es w
    → Attached w.node
    → Attached (run_events api host es w).node
run_events-Attached api host [] w t h = h
run_events-Attached api host (e ∷ es) w t h =
    run_events-Attached api host es _ t.1 (run_event-Attached api host e w t.0 h)

-- Take a node whose camera is there while it is available, with no thread waiting to open the camera
-- while it is available and at most one at any time. After any sequence of its steps in which a notice
-- that a camera came or went never arrives while a thread waits, a request to any feature service
-- returns: with a body and an empty error, or with an error and no body. It meets no null pointer and
-- throws nothing. The clock has to go on as the loop of the command features needs it.
pub handle-run_events :
    (api : Api) (host : Host api) (es : List (Event api.Float)) (w : NodeWorld api.Dev)
    → AllInTurn api host es w
    → Attached w.node
    → ClockLaws api
    → (r : Request api.Float) (id : ℕ) → Answers (handle api r id (run_events api host es w))
handle-run_events api host es w t h laws r id =
    handle-Answers api laws r id (run_events api host es w)
      (run_events-Attached api host es w t h).has_camera
