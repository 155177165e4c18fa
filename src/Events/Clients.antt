-- ===== src/Events/Clients.antt =====
-- vimbax_camera_events/include/vimbax_camera_events/event_subscriber_base.hpp: EventSubscriberBase and
-- its EventSubscription, as the clients of one EventPublisherBase. A request and its response are apart,
-- so those of several clients interleave, also with the timer of the publisher.
pub mod Maps
pub mod Counts
pub mod Holders
pub mod Requests
pub mod Agreement
pub mod Lost
use vimbax_ros2_driver.Common.{
  ℕ, zero, suc, String, Bool, Option, none, some, List, [], ◌∷◌, ◌++◌, get_elem?, if◌then◌else◌,
}
use vimbax_ros2_driver.Error.{ErrorMsg, is_success}
use vimbax_ros2_driver.Events.{Subscriptions, Outcome, subscribe, unsubscribe, on_timer}

-- A call of subscribe_event: its request is under way; its response is; the promise has its
-- EventSubscription, with a ROS subscription; it has an EventSubscribeException; the EventSubscription is
-- destroyed, and the request of its destructor under way; that request is served.
pub data Phase : Type 0 where
  requested listening closing gone : Phase
  answered failed : ErrorMsg → Phase

pub record Client : Type 0 where
  pub event_name : String
  pub phase : Phase

pub record EventSystem : Type 0 where
  pub subscriptions : Subscriptions
  pub clients : List Client

-- A client is named by its place.
pub data EventStep : Type 0 where
  request : String → EventStep
  serve : ℕ → (String → ErrorMsg) → EventStep
  receive drop serve_last : ℕ → EventStep
  check : (String → ℕ) → EventStep

abbrev pub set : List Client → ℕ → Client → List Client
set [] i c = []
set (d ∷ cs) zero c = c ∷ cs
set (d ∷ cs) (suc i) c = d ∷ set cs i c

abbrev pub enters : Phase → ℕ → String → EventSystem → EventSystem
enters phase i name s = record s {
  clients = set s.clients i (record { event_name = name; phase = phase });
}

-- The publisher answers a request.
unfoldable pub serve_at :
    (String → ErrorMsg) → Phase → ℕ → String → EventSystem → Option EventSystem
serve_at answer requested i name s =
    let o = subscribe answer name s.subscriptions in
    some (enters (answered o.error) i name (record s { subscriptions = o.subscriptions }))
serve_at answer phase i name s = none

-- The response of subscribe_event.
unfoldable pub receive_at : Phase → ℕ → String → EventSystem → Option EventSystem
receive_at (answered error) i name s =
    some (enters (if is_success error.code then listening else failed error) i name s)
receive_at phase i name s = none

-- ~EventSubscription
unfoldable pub drop_at : Phase → ℕ → String → EventSystem → Option EventSystem
drop_at listening i name s = some (enters closing i name s)
drop_at phase i name s = none

unfoldable pub serve_last_at : Phase → ℕ → String → EventSystem → Option EventSystem
serve_last_at closing i name s = some (
    enters gone i name
      (record s { subscriptions = (unsubscribe name s.subscriptions).subscriptions }))
serve_last_at phase i name s = none

abbrev pub at_client :
    (Phase → ℕ → String → EventSystem → Option EventSystem)
    → ℕ
    → Option Client
    → EventSystem
    → Option EventSystem
at_client f i none s = none
at_client f i (some c) s = f c.phase i c.event_name s

unfoldable pub event_step : EventStep → EventSystem → Option EventSystem
event_step (request name) s =
    some (record s { clients = s.clients ++ record { event_name = name; phase = requested } ∷ [] })
event_step (serve i answer) s = at_client (serve_at answer) i (get_elem? s.clients i) s
event_step (receive i) s = at_client receive_at i (get_elem? s.clients i) s
event_step (drop i) s = at_client drop_at i (get_elem? s.clients i) s
event_step (serve_last i) s = at_client serve_last_at i (get_elem? s.clients i) s
event_step (check subscription_count) s =
    some (record s { subscriptions = (on_timer subscription_count s.subscriptions).subscriptions })

unfoldable pub event_run : List EventStep → EventSystem → Option EventSystem
unfolding event_step
event_run [] s = some s
event_run (e ∷ es) s = elim (event_step e s) [ none ↦ none | some t ↦ event_run es t ]
