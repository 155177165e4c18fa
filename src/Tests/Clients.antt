-- ===== src/Tests/Clients.antt =====
-- Clients of one publisher of events.
use vimbax_ros2_driver.Common.{ℕ, ◌≡◌, refl, String, none, some, List, [], ◌∷◌, arith}
use vimbax_ros2_driver.Error.{ErrorMsg, no_error, not_found, to_error_msg}
use vimbax_ros2_driver.Events.{subscribe, unsubscribe, on_timer, count_of}
use vimbax_ros2_driver.Events.Clients.{
  listening, gone, failed, EventSystem, EventStep, request, serve, receive, drop, serve_last, check,
  event_step, event_run, serve_at, receive_at, drop_at, serve_last_at,
}
use vimbax_ros2_driver.Events.Clients.Maps.{total}
use vimbax_ros2_driver.Events.Clients.Holders.{Agrees}
use vimbax_ros2_driver.Events.Clients.Agreement.{event_run-Agrees}
use vimbax_ros2_driver.Events.Clients.Lost.{IsLost, check-IsLost}

abbrev agree : String → ErrorMsg
agree name = no_error

abbrev refuse : String → ErrorMsg
refuse name = to_error_msg not_found

abbrev nobody : EventSystem
nobody = record { subscriptions = []; clients = [] }

abbrev all_heard : String → ℕ
all_heard name = 1

abbrev none_heard : String → ℕ
none_heard name = 0

-- Two clients of an event, one of which leaves it.
abbrev two_clients : List EventStep
two_clients =
    request "ExposureEnd"
    ∷ request "ExposureEnd"
    ∷ serve 0 agree
    ∷ serve 1 agree
    ∷ receive 1
    ∷ receive 0
    ∷ check all_heard
    ∷ drop 0
    ∷ serve_last 0
    ∷ []

abbrev one_left : EventSystem
one_left = record {
  subscriptions = ("ExposureEnd", 1) ∷ [];
  clients =
      record { event_name = "ExposureEnd"; phase = gone }
      ∷ record { event_name = "ExposureEnd"; phase = listening }
      ∷ [];
}

two_clients_run : event_run two_clients nobody ≡ some one_left
unfolding event_run serve_at receive_at drop_at subscribe serve_last_at unsubscribe on_timer
two_clients_run = refl

event_run-Agrees_example : Agrees one_left
unfolding total count_of event_run event_step serve_at receive_at drop_at subscribe serve_last_at
    unsubscribe on_timer
event_run-Agrees_example =
    event_run-Agrees two_clients nobody one_left (tt, λ name. refl) (omega arith)
      (tt, (tt, (tt, (tt, (tt, (tt, ((λ name h. absurd (omega arith)), (tt, (tt, tt)))))))))
      two_clients_run

-- The timer finds nobody, and a later client of the event drops its subscription in vain.
abbrev forgotten : EventSystem
forgotten = record one_left { subscriptions = [] }

forgotten_run : event_run (check none_heard ∷ serve_last 0 ∷ []) one_left ≡ none
unfolding event_run serve_at receive_at drop_at subscribe serve_last_at unsubscribe on_timer
forgotten_run = refl

check_run : event_run (check none_heard ∷ check all_heard ∷ []) one_left ≡ some forgotten
unfolding event_run serve_at receive_at drop_at subscribe serve_last_at unsubscribe on_timer
check_run = refl

check-IsLost_example : IsLost "ExposureEnd" 1 forgotten
unfolding count_of
check-IsLost_example =
    check-IsLost "ExposureEnd" 1 none_heard (check all_heard ∷ []) one_left forgotten
      (omega arith, refl, tt) refl refl refl (tt, tt) check_run

-- The last request of a client that the timer has given up ends the subscription of the next client.
late_request :
    event_run
      (drop 1
        ∷ check none_heard
        ∷ request "ExposureEnd"
        ∷ serve 2 agree
        ∷ receive 2
        ∷ serve_last 1
        ∷ [])
      one_left
    ≡ some (record {
      subscriptions = [];
      clients =
          record { event_name = "ExposureEnd"; phase = gone }
          ∷ record { event_name = "ExposureEnd"; phase = gone }
          ∷ record { event_name = "ExposureEnd"; phase = listening }
          ∷ [];
    })
unfolding event_run serve_at receive_at drop_at subscribe serve_last_at unsubscribe on_timer
late_request = refl

refused_request :
    event_run (request "Nothing" ∷ serve 0 refuse ∷ receive 0 ∷ []) nobody
    ≡ some (record {
      subscriptions = [];
      clients = record { event_name = "Nothing"; phase = failed (to_error_msg not_found) } ∷ [];
    })
unfolding event_run serve_at receive_at drop_at subscribe serve_last_at unsubscribe on_timer
    to_error_msg
refused_request = refl
