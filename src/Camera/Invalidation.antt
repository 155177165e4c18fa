-- ===== src/Camera/Invalidation.antt =====
-- vimbax_camera.cpp: the callbacks on the invalidation of a feature, and the data of an event. A
-- callback is a number that names it, and a text of std::to_string is a parameter.
pub mod Dispatch
pub mod Complete
use vimbax_ros2_driver.Common.{
  ℕ, String, Bool, true, false, Option, none, some, List, [], ◌∷◌, ◌++◌, ℤ, Act, Result, ok, err,
  out_of_range, pure, abort, attempt, ◌>>=◌, ◌>>◌, ◌==◌, str_eq, if◌then◌else◌,
}
use vimbax_ros2_driver.Vmbc.{Api, FeatureInfo}
use vimbax_ros2_driver.Vmbc.Features.{call}
use vimbax_ros2_driver.Camera.{Camera, World, Module, remote_device, on_dev, update}
use vimbax_ros2_driver.Camera.Features
use vimbax_ros2_driver.Camera.Features.{feature_bool_get, feature_float_get}
use vimbax_ros2_driver.Camera.Enums.{feature_enum_get}
use vimbax_ros2_driver.Camera.Construct.{emplace}

abbrev pub lookup {ℓ} : {V : Type ℓ} → String → List (String × V) → Option V
lookup k [] = none
lookup k ((j, v) ∷ m) = if str_eq j k then some v else lookup k m

abbrev pub erase_key {ℓ} : {V : Type ℓ} → String → List (String × V) → List (String × V)
erase_key k [] = []
erase_key k ((j, v) ∷ m) = if str_eq j k then erase_key k m else (j, v) ∷ erase_key k m

-- on_feature_invalidation: the callback that the library's notice of `name` runs.
unfoldable pub on_feature_invalidation : String → Camera → Option ℕ
on_feature_invalidation name c = lookup name c.invalidation_callbacks

module _ (api : Api) where
  unfoldable pub feature_invalidation_register : String → ℕ → Act (World api.Dev) (Unit {0})
  feature_invalidation_register name callback = do
    update
        (λ c. record c { invalidation_callbacks = emplace name callback c.invalidation_callbacks })
    on_dev (λ c. call (api.vmb_feature_invalidation_register c.camera_handle name))

  unfoldable pub feature_invalidation_unregister : String → Act (World api.Dev) (Unit {0})
  feature_invalidation_unregister name = do
    update (λ c. record c { invalidation_callbacks = erase_key name c.invalidation_callbacks })
    on_dev (λ c. call (api.vmb_feature_invalidation_unregister c.camera_handle name))

-- `.at(name)`
abbrev pub or_throw : {D A : Type 0} → Option A → Act D A
or_throw none = abort out_of_range
or_throw (some a) = pure a

unfoldable pub get_feature_info : {D : Type 0} → Camera → String → Module → Act D FeatureInfo
get_feature_info c name m = or_throw (lookup name (c.feature_info_map m))

-- "/EventControl/EventsData/Event" + name + "Data"
abbrev pub append_text : String → String → String
append_text String.[] t = t
append_text (String.◌∷◌ c s) t = String.◌∷◌ c (append_text s t)

abbrev pub category_path : String → String
category_path name = append_text "/EventControl/EventsData/Event" (append_text name "Data")

-- equal_range(category): the names of the features, in the order in which they were added.
abbrev pub equal_range : String → List (String × String) → List String
equal_range category [] = []
equal_range category ((k, name) ∷ m) =
    if str_eq k category then name ∷ equal_range category m else equal_range category m

-- std::to_string, for each of the three types.
pub record ToString (F : Type 0) : Type 0 where
  pub of_int : ℤ → String
  pub of_bool : Bool → String
  pub of_float : F → String

abbrev pub entry_of : {A : Type 0} → (A → String) → String → Result A → List (String × String)
entry_of f name (ok a) = (name, f a) ∷ []
entry_of f name (err e) = []

module _ (api : Api) (to_string : ToString api.Float) where
  -- The switch over `info.featureDataType`.
  unfoldable pub read_entry : ℕ → String → Camera → Act api.Dev (List (String × String))
  read_entry feature_data_type name c =
      if feature_data_type == 1
      then (do
        res ← attempt (Features.feature_int_get api c name remote_device)
        pure (entry_of to_string.of_int name res))
      else if feature_data_type == 5
      then (do
        res ← attempt (feature_bool_get api c name remote_device)
        pure (entry_of to_string.of_bool name res))
      else if feature_data_type == 2
      then (do
        res ← attempt (feature_float_get api c name remote_device)
        pure (entry_of to_string.of_float name res))
      else if feature_data_type == 4
      then (do
        res ← attempt (Features.feature_string_get api c name remote_device)
        pure (entry_of (λ s. s) name res))
      else if feature_data_type == 3
      then (do
        res ← attempt (feature_enum_get api c name remote_device)
        pure (entry_of (λ s. s) name res))
      else pure []

  unfoldable pub entries : Camera → List String → Act api.Dev (List (String × String))
  unfolding get_feature_info read_entry
  entries c [] = pure []
  entries c (name ∷ names) = do
    info ← get_feature_info c name remote_device
    entry ← read_entry info.feature_data_type name c
    rest ← entries c names
    pure (entry ++ rest)

  unfoldable pub get_event_meta_data : String → Camera → Act api.Dev (List (String × String))
  unfolding entries
  get_event_meta_data name c =
      entries c (equal_range (category_path name) (c.feature_category_map remote_device))
