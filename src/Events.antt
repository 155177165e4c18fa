-- ===== src/Events.antt =====
-- vimbax_camera_events/src/event_publisher_base.cpp: the subscriptions to events, and the calls that
-- register and unregister an event with the owner. The names are kept in the order of their
-- subscription, not in that of std::map, which is visible only in the order in which one pass of the
-- timer gives up several events.
pub mod Balance
pub mod Runs
pub mod Clients
pub mod Topics
use vimbax_ros2_driver.Common.{
  ℕ, ◌+◌, ◌-◌, ◌%◌, ◌^◌, String, Bool, true, false, Option, none, some, List, [], ◌∷◌, ◌++◌, ◌==◌,
  ◌||◌, str_eq, if◌then◌else◌, int_eq,
}
use vimbax_ros2_driver.Error.{ErrorMsg, no_error, is_success}

-- `subscribtion_detail_map_`: the names, each with its `count_`.
abbrev pub Subscriptions : Type 0
Subscriptions = List (String × ℕ)

-- A call of `on_event_subscribed` that succeeded, or of `on_event_unsubscribed_`.
pub data OwnerCall : Type 0 where
  registered : String → OwnerCall
  unregistered : String → OwnerCall

-- What a handler answers, the calls that it makes, and the map that it leaves.
pub record Outcome : Type 0 where
  pub error : ErrorMsg
  pub calls : List OwnerCall
  pub subscriptions : Subscriptions

-- `find(name)`
unfoldable pub count_of : String → Subscriptions → Option ℕ
count_of name [] = none
count_of name ((n, count) ∷ m) = if str_eq n name then some count else count_of name m

-- `it->second->count_ = count`
unfoldable pub set_count : String → ℕ → Subscriptions → Subscriptions
set_count name count [] = []
set_count name count ((n, k) ∷ m) =
    if str_eq n name then (n, count) ∷ m else (n, k) ∷ set_count name count m

unfoldable pub erase : String → Subscriptions → Subscriptions
erase name [] = []
erase name ((n, k) ∷ m) = if str_eq n name then m else (n, k) ∷ erase name m

-- `count_` is a size_t.
abbrev pub increment : ℕ → ℕ
increment count = (count + 1) % 2 ^ 64

abbrev pub decrement : ℕ → ℕ
decrement count = (count + (2 ^ 64 - 1)) % 2 ^ 64

-- The subscription service; `on_event_subscribed` is the owner's answer.
unfoldable pub subscribe : (String → ErrorMsg) → String → Subscriptions → Outcome
unfolding count_of set_count
subscribe on_event_subscribed name m = elim (count_of name m) [
  | none ↦
      if is_success (on_event_subscribed name).code
      then record {
        error = no_error;
        calls = registered name ∷ [];
        subscriptions = m ++ (name, 1) ∷ [];
      }
      else record { error = on_event_subscribed name; calls = []; subscriptions = m }
  | some count ↦ record {
    error = no_error;
    calls = [];
    subscriptions = set_count name (increment count) m;
  }
]

unfoldable pub unsubscribe : String → Subscriptions → Outcome
unfolding count_of set_count erase
unsubscribe name m = elim (count_of name m) [
  | none ↦ record { error = no_error; calls = []; subscriptions = m }
  | some count ↦
      if decrement count == 0
      then record {
        error = no_error;
        calls = unregistered name ∷ [];
        subscriptions = erase name (set_count name (decrement count) m);
      }
      else record {
        error = no_error;
        calls = [];
        subscriptions = set_count name (decrement count) m;
      }
]

-- The first loop of the timer: the events whose publisher nobody listens to, by the number of
-- subscriptions that each publisher counts.
unfoldable pub unheard : (String → ℕ) → Subscriptions → List String
unheard subscription_count [] = []
unheard subscription_count ((n, k) ∷ m) =
    if subscription_count n == 0
    then n ∷ unheard subscription_count m
    else unheard subscription_count m

abbrev pub unregister_all : List String → List OwnerCall
unregister_all [] = []
unregister_all (n ∷ names) = unregistered n ∷ unregister_all names

-- The second loop.
unfoldable pub extract : List String → Subscriptions → Subscriptions
unfolding erase
extract [] m = m
extract (n ∷ names) m = extract names (erase n m)

unfoldable pub on_timer : (String → ℕ) → Subscriptions → Outcome
unfolding unheard extract
on_timer subscription_count m =
    let remove_list = unheard subscription_count m in
    record {
      error = no_error;
      calls = unregister_all remove_list;
      subscriptions = extract remove_list m;
    }

-- One request to the publisher, or one pass of its timer.
pub data PublisherStep : Type 0 where
  subscribe_step : (String → ErrorMsg) → String → PublisherStep
  unsubscribe_step : String → PublisherStep
  timer_step : (String → ℕ) → PublisherStep

unfoldable pub publisher_step : PublisherStep → Subscriptions → Outcome
publisher_step (subscribe_step answer name) m = subscribe answer name m
publisher_step (unsubscribe_step name) m = unsubscribe name m
publisher_step (timer_step subscription_count) m = on_timer subscription_count m

-- The calls and the map after a sequence of steps.
unfoldable pub publisher_run : List PublisherStep → Subscriptions → List OwnerCall × Subscriptions
unfolding publisher_step
publisher_run [] m = ([], m)
publisher_run (s ∷ ss) m =
    let o = publisher_step s m in
    let rest = publisher_run ss o.subscriptions in (o.calls ++ rest.0, rest.1)
