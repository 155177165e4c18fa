-- ===== src/Node/Connection/Silent.antt =====
-- The callbacks of a camera that a thread has opened again.
use vimbax_ros2_driver.Common.{ℕ, suc, ◌≡◌, refl, String, Option, none, some, [], ap, arith}
use vimbax_ros2_driver.Error.{ErrorMsg}
use vimbax_ros2_driver.Vmbc.{Api}
use vimbax_ros2_driver.Camera.{Camera}
use vimbax_ros2_driver.Camera.Invalidation.{lookup, on_feature_invalidation}
use vimbax_ros2_driver.Camera.Open.Opened.{FreshIfAny}
use vimbax_ros2_driver.Events.{Subscriptions, count_of, subscribe}
use vimbax_ros2_driver.Node.{NodeWorld}
use vimbax_ros2_driver.Node.Connection.Changes.{Connects, reconnect-Turns}
use vimbax_ros2_driver.Node.Steps.{Host, reconnect_thread, run_event, run_thread}

-- The callback that a notice for the node's camera runs.
abbrev pub callback_of : Option Camera → String → Option ℕ
callback_of none name = none
callback_of (some c) name = on_feature_invalidation name c

IsSilent : Option Camera → Type 0
IsSilent none = Unit {0}
IsSilent (some c) = c.invalidation_callbacks ≡ []

FreshIfAny-IsSilent : (o : Option Camera) → FreshIfAny o → IsSilent o
unfolding IsSilent
FreshIfAny-IsSilent none f = tt
FreshIfAny-IsSilent (some c) (handle, f) = f.silent

IsSilent-Connects : Connects (λ n. Unit {0}) (λ n. IsSilent n.camera) (λ n. IsSilent n.camera)
unfolding IsSilent
IsSilent-Connects = record {
  lost = λ n b h. tt;
  found = λ n e u h. h;
  thread = λ n k e h. h;
  set = λ n o f h. FreshIfAny-IsSilent o f;
  remembered = λ n id h. h;
  opened = λ n c e h. h;
  restarted = λ n b h. h;
  back = λ n h. h;
}

callback_of-none : (o : Option Camera) (name : String) → IsSilent o → callback_of o name ≡ none
unfolding IsSilent on_feature_invalidation
callback_of-none none name h = refl
callback_of-none (some c) name h = ap (lookup name) h

none-IsSilent : (o : Option Camera) → o ≡ none → IsSilent o
unfolding IsSilent
none-IsSilent none e = tt
none-IsSilent (some c) e = absurd (ground (arith, e))

subscribe-counted :
    (answer : String → ErrorMsg) (name : String) (m : Subscriptions) (count : ℕ)
    → count_of name m ≡ some count
    → (subscribe answer name m).calls ≡ []
unfolding subscribe
subscribe-counted answer name m count s = simp (subscribe, s)

-- Let a thread open the camera of a node that has none. Whatever camera it finds, a notice for any
-- feature of that camera runs no callback; and a client that subscribes to an event that the publisher
-- counts already, because it had subscribers when the camera was lost, makes the publisher ask the node
-- for nothing.
pub reconnect_thread-drops_callbacks :
    (api : Api) (host : Host api) (w : NodeWorld api.Dev) (k count : ℕ) (m : Subscriptions)
    (answer : String → ErrorMsg) (name : String)
    → w.node.reconnects ≡ suc k
    → w.node.camera ≡ none
    → count_of name m ≡ some count
    → (callback_of (run_event api host reconnect_thread w).node.camera name ≡ none)
      × ((subscribe answer name m).calls ≡ [])
unfolding run_event run_thread
reconnect_thread-drops_callbacks api host w k count m answer name e n s = (
  simp e (
      callback_of-none _ name (
        (reconnect-Turns api host.fs host.camera IsSilent-Connects).at
          (record w { node = record w.node { reconnects = k } }) (none-IsSilent _ n))),
  subscribe-counted answer name m count s,
)
