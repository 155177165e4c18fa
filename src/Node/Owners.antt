-- ===== src/Node/Owners.antt =====
-- vimbax_camera_node.cpp: what the node does when the first client subscribes to an event and when the
-- last one leaves, for the publisher of invalidated features and for that of the camera's events.
use vimbax_ros2_driver.Common.{
  ℕ, String, List, [], Exit, Act, Result, ok, err, pure, attempt, ◌>>=◌, ◌>>◌, if◌then◌else◌,
}
use vimbax_ros2_driver.Error.{ErrorMsg, no_error, to_error_msg, not_found}
use vimbax_ros2_driver.Vmbc.{Api}
use vimbax_ros2_driver.Camera.{Camera, remote_device}
use vimbax_ros2_driver.Camera.Enums.{feature_enum_set}
use vimbax_ros2_driver.Camera.Invalidation.{
  ToString, append_text, feature_invalidation_register, feature_invalidation_unregister,
  get_event_meta_data,
}
use vimbax_ros2_driver.Node.{NodeWorld, ask, tell}

-- `vimbax_camera_msgs::msg::Error{}`, or the error of the result.
abbrev pub msg_of : Result (Unit {0}) → ErrorMsg
msg_of (ok u) = no_error
msg_of (err e) = to_error_msg e

abbrev pub missing_camera : ErrorMsg
missing_camera = record { code = not_found; text = "VmbErrorNotFound" }

-- "Event" + name
abbrev pub event_feature_name : String → String
event_feature_name name = append_text "Event" name

abbrev pub or_no_entries : Result (List (String × String)) → List (String × String)
or_no_entries (ok entries) = entries
or_no_entries (err e) = []

-- The names of the callbacks that the node registers.
pub record Callbacks : Type 0 where
  pub on_feature : ℕ
  pub on_event : String → ℕ

module _ (api : Api) where
  -- The message that the callback of an event publishes.
  unfoldable pub event_data :
      ToString api.Float → String → Camera → Act api.Dev (List (String × String))
  event_data to_string name c = do
    res ← attempt (get_event_meta_data api to_string name c)
    pure (or_no_entries res)

  module _ (callbacks : Callbacks) where
    unfoldable pub subscribe_feature : String → Act (NodeWorld api.Dev) ErrorMsg
    subscribe_feature name w =
        if w.node.is_available
        then (do
          res ← attempt (tell (feature_invalidation_register api name callbacks.on_feature))
          pure (msg_of res))
            w
        else (Exit.value missing_camera, w)

    -- The pointer to the camera is not checked, and the result is thrown away.
    unfoldable pub unsubscribe_feature : String → Act (NodeWorld api.Dev) (Unit {0})
    unsubscribe_feature name = do
      res ← attempt (tell (feature_invalidation_unregister api name))
      pure tt

    -- Selecting the event, and switching its notice.
    unfoldable pub notify : String → String → Act (NodeWorld api.Dev) (Unit {0})
    notify name mode = do
      ask (λ c. feature_enum_set api c "EventSelector" name remote_device)
      ask (λ c. feature_enum_set api c "EventNotification" mode remote_device)

    unfoldable pub subscribe_event : String → Act (NodeWorld api.Dev) ErrorMsg
    unfolding notify
    subscribe_event name w =
        if w.node.is_available
        then (do
          res ← attempt (do
            notify name "On"
            tell (
                feature_invalidation_register api (event_feature_name name)
                  (callbacks.on_event name)))
          pure (msg_of res))
            w
        else (Exit.value missing_camera, w)

    unfoldable pub unsubscribe_event : String → Act (NodeWorld api.Dev) (Unit {0})
    unfolding notify
    unsubscribe_event name w =
        if w.node.is_available
        then (do
          res ← attempt (tell (feature_invalidation_unregister api (event_feature_name name)))
          off ← attempt (notify name "Off")
          pure tt)
            w
        else (Exit.value tt, w)
