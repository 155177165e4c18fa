-- ===== src/Node/Answers.antt =====
-- Every feature service answers.
use vimbax_ros2_driver.Common.{ℕ}
use vimbax_ros2_driver.Vmbc.{Api}
use vimbax_ros2_driver.Vmbc.Features as Vmb
use vimbax_ros2_driver.Camera.{get_module_handle}
use vimbax_ros2_driver.Camera.Features
use vimbax_ros2_driver.Camera.Enums
use vimbax_ros2_driver.Camera.Command.Ends.{ClockLaws}
use vimbax_ros2_driver.Node.{NodeWorld}
use vimbax_ros2_driver.Node.Services.{
  Request, handle, timeout_of, request_int_get, request_int_set, request_int_info_get,
  request_float_get, request_float_set, request_float_info_get, request_string_get,
  request_string_set, request_string_info_get, request_bool_get, request_bool_set,
  request_command_is_done, request_command_run, request_enum_get, request_enum_set,
  request_enum_info_get, request_enum_as_int_get, request_enum_as_string_get, request_raw_get,
  request_raw_set, request_raw_info_get, request_access_mode_get, request_info_query,
  request_list_get,
}
use vimbax_ros2_driver.Node.Replies.{
  Answers, HasCamera, feature_service-Answers, available_of-Honest, query_infos-Honest,
  command_run-Honest,
}
use vimbax_ros2_driver.Vmbc.Honest.{call-Honest, bind-Honest, pure-Honest}

-- On a node that has a camera while one is available, and under a steady clock, every feature service
-- returns, whatever the library answers: either with the fields of the response filled in and no
-- error, or with no field filled in and an error code other than VmbErrorSuccess.
pub handle-Answers :
    (api : Api)
    → ClockLaws api
    → (r : Request api.Float) (id : ℕ) (w : NodeWorld api.Dev) → HasCamera w
    → Answers (handle api r id w)
unfolding handle Features.feature_int_get Features.feature_int_set Features.feature_int_info_get
    Features.feature_float_get Features.feature_float_set Features.feature_float_info_get
    Features.feature_string_get Features.feature_string_set Features.feature_string_info_get
    Features.feature_bool_get Features.feature_bool_set Features.feature_command_is_done
    Features.feature_raw_get Features.feature_raw_set Features.feature_raw_info_get
    Features.feature_access_mode_get Features.features_list_get Enums.feature_enum_get
    Enums.feature_enum_set Enums.feature_enum_info_get Enums.feature_enum_as_int_get
    Enums.feature_enum_as_string_get Vmb.feature_int_get Vmb.feature_int_set
    Vmb.feature_int_info_get Vmb.feature_string_get
handle-Answers api laws (request_int_get name) id w h =
    feature_service-Answers id _ w h
      λ c m. call-Honest (api.vmb_feature_int_get (get_module_handle c m) name)
handle-Answers api laws (request_int_set name v) id w h =
    feature_service-Answers id _ w h
      λ c m. call-Honest (api.vmb_feature_int_set (get_module_handle c m) name v)
handle-Answers api laws (request_int_info_get name) id w h = feature_service-Answers id _ w h λ c m.
    bind-Honest _ _ (call-Honest (api.vmb_feature_int_range_query (get_module_handle c m) name))
      λ range.
        bind-Honest _ _
          (call-Honest (api.vmb_feature_int_increment_query (get_module_handle c m) name))
          λ inc. pure-Honest _
handle-Answers api laws (request_float_get name) id w h =
    feature_service-Answers id _ w h
      λ c m. call-Honest (api.vmb_feature_float_get (get_module_handle c m) name)
handle-Answers api laws (request_float_set name v) id w h =
    feature_service-Answers id _ w h
      λ c m. call-Honest (api.vmb_feature_float_set (get_module_handle c m) name v)
handle-Answers api laws (request_float_info_get name) id w h =
    feature_service-Answers id _ w h λ c m.
      bind-Honest _ _ (call-Honest (api.vmb_feature_float_range_query (get_module_handle c m) name))
        λ range.
          bind-Honest _ _
            (call-Honest (api.vmb_feature_float_increment_query (get_module_handle c m) name))
            λ inc. pure-Honest _
handle-Answers api laws (request_string_get name) id w h = feature_service-Answers id _ w h λ c m.
    bind-Honest _ _ (call-Honest (api.vmb_feature_string_size (get_module_handle c m) name)) λ size.
      bind-Honest _ _ (call-Honest (api.vmb_feature_string_get (get_module_handle c m) name size))
        λ filled. pure-Honest _
handle-Answers api laws (request_string_set name v) id w h =
    feature_service-Answers id _ w h
      λ c m. call-Honest (api.vmb_feature_string_set (get_module_handle c m) name v)
handle-Answers api laws (request_string_info_get name) id w h =
    feature_service-Answers id _ w h
      λ c m. call-Honest (api.vmb_feature_string_maxlength_query (get_module_handle c m) name)
handle-Answers api laws (request_bool_get name) id w h =
    feature_service-Answers id _ w h
      λ c m. call-Honest (api.vmb_feature_bool_get (get_module_handle c m) name)
handle-Answers api laws (request_bool_set name v) id w h =
    feature_service-Answers id _ w h
      λ c m. call-Honest (api.vmb_feature_bool_set (get_module_handle c m) name v)
handle-Answers api laws (request_command_is_done name) id w h =
    feature_service-Answers id _ w h
      λ c m. call-Honest (api.vmb_feature_command_is_done (get_module_handle c m) name)
handle-Answers api laws (request_command_run timeout name) id w h =
    feature_service-Answers id _ w h
      λ c m. command_run-Honest api laws c name (timeout_of timeout) m
handle-Answers api laws (request_enum_get name) id w h =
    feature_service-Answers id _ w h
      λ c m. call-Honest (api.vmb_feature_enum_get (get_module_handle c m) name)
handle-Answers api laws (request_enum_set name v) id w h =
    feature_service-Answers id _ w h
      λ c m. call-Honest (api.vmb_feature_enum_set (get_module_handle c m) name v)
handle-Answers api laws (request_enum_info_get name) id w h =
    feature_service-Answers id _ w h λ c m.
      bind-Honest _ _ (call-Honest (api.vmb_feature_enum_range_size (get_module_handle c m) name))
        λ n.
          bind-Honest _ _
            (call-Honest (api.vmb_feature_enum_range_query (get_module_handle c m) name n))
            λ entries.
              bind-Honest _ _ (available_of-Honest api (get_module_handle c m) name entries)
                λ available. pure-Honest _
handle-Answers api laws (request_enum_as_int_get name option) id w h =
    feature_service-Answers id _ w h
      λ c m. call-Honest (api.vmb_feature_enum_as_int (get_module_handle c m) name option)
handle-Answers api laws (request_enum_as_string_get name v) id w h =
    feature_service-Answers id _ w h
      λ c m. call-Honest (api.vmb_feature_enum_as_string (get_module_handle c m) name v)
handle-Answers api laws (request_raw_get name) id w h = feature_service-Answers id _ w h λ c m.
    bind-Honest _ _ (call-Honest (api.vmb_feature_raw_length_query (get_module_handle c m) name))
      λ size. call-Honest (api.vmb_feature_raw_get (get_module_handle c m) name size)
handle-Answers api laws (request_raw_set name buffer) id w h =
    feature_service-Answers id _ w h
      λ c m. call-Honest (api.vmb_feature_raw_set (get_module_handle c m) name buffer)
handle-Answers api laws (request_raw_info_get name) id w h =
    feature_service-Answers id _ w h
      λ c m. call-Honest (api.vmb_feature_raw_length_query (get_module_handle c m) name)
handle-Answers api laws (request_access_mode_get name) id w h =
    feature_service-Answers id _ w h
      λ c m. call-Honest (api.vmb_feature_access_query (get_module_handle c m) name)
handle-Answers api laws (request_info_query names) id w h =
    feature_service-Answers id _ w h λ c m. query_infos-Honest api names c m
handle-Answers api laws request_list_get id w h =
    feature_service-Answers id _ w h λ c m. pure-Honest _
