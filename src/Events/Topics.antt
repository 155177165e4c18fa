-- ===== src/Events/Topics.antt =====
-- vimbax_camera_events.cpp: the names of topics and services below the topic of a publisher.
use Prim.Native.String.{◌++◌}
use vimbax_ros2_driver.Common.{String, ◌≡◌}
use text.Mathlib.TextLemmas.{append_cancel_left}

unfoldable pub event_topic_name : String → String → String
event_topic_name base_topic event_name = (base_topic ++ "/event_") ++ event_name

unfoldable pub subscribe_topic_name : String → String
subscribe_topic_name base_topic = base_topic ++ "/_event_subscribe"

unfoldable pub unsubscribe_topic_name : String → String
unsubscribe_topic_name base_topic = base_topic ++ "/_event_unsubscribe"

-- Below one topic, two events have two topics.
pub event_topic_name_inj :
    (base_topic a b : String)
    → event_topic_name base_topic a ≡ event_topic_name base_topic b
    → a ≡ b
unfolding event_topic_name
event_topic_name_inj base_topic a b e = append_cancel_left (base_topic ++ "/event_") a b e
