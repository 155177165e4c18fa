-- ===== src/Tests/Opening.antt =====
-- Cameras that are opened, asked and listened to.
use vimbax_ros2_driver.Common.{
  ℕ, ◌>>=◌, ◌≤◌, ◌<◌, ◌≡◌, refl, ap, ◌∙◌, true, leb, ℤ, pos, negsuc, to_u64, Bool-cases, inl, inr,
  String, none, some, [], ◌∷◌, ◌==◌, error, arith, str_eq, if◌then◌else◌,
}
use vimbax_ros2_driver.Common.Ensures.{Ensures}
use vimbax_ros2_driver.Common.Yields.{Yields}
use vimbax_ros2_driver.Error.{success, not_found}
use vimbax_ros2_driver.Vmbc.{Api, FeatureInfo}
use vimbax_ros2_driver.Vmbc.Honest.{Total}
use vimbax_ros2_driver.Camera.{Camera}
use vimbax_ros2_driver.Vmbc.Features.{assign}
use vimbax_ros2_driver.Camera.Open.Network.{Network, find_device, find_on}
use vimbax_ros2_driver.Camera.Open.{open_by_name}
use vimbax_ros2_driver.Camera.Open.Opened.{FreshIfAny, open_by_name-FreshIfAny}
use vimbax_ros2_driver.Camera.Settings.{FileSystem, settings_save}
use vimbax_ros2_driver.Camera.Invalidation.{
  ToString, get_event_meta_data, on_feature_invalidation, feature_invalidation_register,
  feature_invalidation_unregister,
}
use vimbax_ros2_driver.Camera.Invalidation.Complete.{get_event_meta_data-Total}
use vimbax_ros2_driver.Camera.Invalidation.Dispatch.{on_feature_invalidation-register}
use vimbax_ros2_driver.Tests.{working, idle_camera, busy_camera, busy_world}

open_by_name-FreshIfAny_example : Ensures FreshIfAny (open_by_name working "DEV_1")
open_by_name-FreshIfAny_example = open_by_name-FreshIfAny working "DEV_1"

-- A file system with one file, in the working directory.
abbrev bare_files : FileSystem ℕ
bare_files = record {
  exists = λ d path. str_eq path "camera.xml";
  extension = λ path. ".xml";
  parent_path = λ path. "";
}

bare_name_refused :
    settings_save working bare_files "camera.xml" idle_camera 0 ≡ (error not_found, 0)
unfolding settings_save ◌>>=◌
bare_name_refused = refl

-- A library with two trigger selectors; its state tells which is set.
abbrev two_triggers : Api
two_triggers = record working {
  vmb_feature_enum_set = λ h n v d.
      if str_eq v "FrameStart"
      then (success, tt, 0)
      else if str_eq v "LineStart"
      then (success, tt, 1)
      else (not_found, tt, d);
  vmb_feature_enum_range_query = λ h n k d. (success, "FrameStart" ∷ "LineStart" ∷ [], d);
}

abbrev selected : ℕ → String
selected d = if d == 0 then "FrameStart" else "LineStart"

-- A camera with one event.
abbrev event_info : FeatureInfo
event_info = record {
  name = some "EventExposureEndTimestamp";
  category = some "/EventControl/EventsData/EventExposureEndData";
  display_name = none;
  sfnc_namespace = none;
  unit = none;
  feature_data_type = 1;
  feature_flags = 1;
  polling_time = 0;
}

-- It streams, and the event's callback is registered.
abbrev event_camera : Camera
event_camera = record busy_camera {
  invalidation_callbacks = ("EventExposureEndTimestamp", 3) ∷ [];
  feature_info_map = λ m. ("EventExposureEndTimestamp", event_info) ∷ [];
  feature_category_map =
      λ m. ("/EventControl/EventsData/EventExposureEndData", "EventExposureEndTimestamp") ∷ [];
}

abbrev any_text : ToString ℕ
any_text = record { of_int = λ z. "8"; of_bool = λ b. "1"; of_float = λ f. "0.0" }

get_event_meta_data-Total_example :
    Total (get_event_meta_data working any_text "ExposureEnd" event_camera)
get_event_meta_data-Total_example =
    get_event_meta_data-Total working any_text event_camera (refl, tt) "ExposureEnd"

on_feature_invalidation-register_example :
    (on_feature_invalidation "Width"
        (feature_invalidation_register working "Width" 3 busy_world).1.camera
      ≡ some 3)
    × (on_feature_invalidation "Width"
          (feature_invalidation_unregister working "Width" busy_world).1.camera
        ≡ none)
unfolding on_feature_invalidation
on_feature_invalidation-register_example =
    on_feature_invalidation-register working busy_world "Width" "Width" 3

-- A library with one interface and two devices on it; its state is the device that is selected.
abbrev device_address : ℕ → ℕ
device_address i = if i == 0 then 0xc0a80005 else 0xc0a80006

abbrev device_name : ℕ → String
device_name i = if i == 0 then "CAM_A" else "CAM_B"

-- VmbErrorMoreData
abbrev more_data : ℤ
more_data = negsuc 8

abbrev one_interface : Api
one_interface = record working {
  vmb_interfaces_list = λ n d.
      if leb 1 n
      then (success, record { interface_handle = 7; interface_type = 1 } ∷ [], d)
      else (more_data, [], d);
  vmb_interfaces_count = λ d. (success, 1, d);
  vmb_feature_int_range_query = λ h n d. (success, (pos 0, pos 1), d);
  vmb_feature_int_set = λ h n v d. (success, tt, to_u64 v);
  vmb_feature_int_get = λ h n d. (success, pos (device_address d), d);
  vmb_feature_string_size = λ h n d. (success, 5, d);
  vmb_feature_string_get =
      λ h n k d. if leb 5 k then (success, (device_name d, 5), d) else (more_data, ("", 0), d);
}

device_name-assign : (i : ℕ) → assign (device_name i) 5 ≡ device_name i
unfolding assign
device_name-assign i = elim (Bool-cases (i == 0)) [ inl e ↦ rw e refl | inr e ↦ rw e refl ]

leb-true : (m n : ℕ) → m ≤ n → leb m n ≡ true
leb-true m n l = ground arith

abbrev one_interface_network : Network one_interface
one_interface_network = record {
  list = record { interface_handle = 7; interface_type = 1 } ∷ [];
  count = λ h. 2;
  address = λ h i. device_address i;
  id = λ h i. device_name i;
  id_length = λ h i. 5;
  Selected = λ h i d. (d ≡ i) × (i < 2);
  interfaces_count = λ d. (refl, refl);
  interfaces_list = λ n d l. rw (leb-true 1 n l) (refl, refl);
  range = λ h d. (refl, refl);
  increment = λ h d. refl;
  select = λ h i d l. (refl, (omega arith, l));
  ip = λ h i d s. (refl, ap (λ k. pos (device_address k)) s.0, s);
  id_size = λ h i d s. (refl, refl, s);
  id_get = λ h i n d s l. rw (leb-true 5 n l) (refl, device_name-assign d ∙ ap device_name s.0);
}

-- It is the second device.
second_found : find_on one_interface_network 0xc0a80006 one_interface_network.list ≡ some "CAM_B"
unfolding find_on find_device
second_found = refl
