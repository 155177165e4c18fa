-- ===== src/Camera/Invalidation/Complete.antt =====
-- The data of an event, on a camera whose categories name features that it has.
use vimbax_ros2_driver.Common.{
  ℕ, ◌≡◌, String, Bool, true, false, some, List, [], ◌∷◌, All, Act, arith, ◌==◌, str_eq,
  if◌then◌else◌, Bool-cases, inl, inr,
}
use vimbax_ros2_driver.Vmbc.{Api, Handle, FeatureInfo}
use vimbax_ros2_driver.Vmbc.Features as Vmb
use vimbax_ros2_driver.Vmbc.Features.{call}
use vimbax_ros2_driver.Vmbc.Honest.{
  Honest, bind-Honest, pure-Honest, call-Honest, Total, bind-Total, pure-Total, attempt_then-Total,
}
use vimbax_ros2_driver.Camera.{Camera, remote_device, has_key, get_module_handle}
use vimbax_ros2_driver.Camera.Features
use vimbax_ros2_driver.Camera.Features.{feature_bool_get, feature_float_get}
use vimbax_ros2_driver.Camera.Enums.{feature_enum_get}
use vimbax_ros2_driver.Camera.Construct.Fresh.{Known}
use vimbax_ros2_driver.Camera.Invalidation.{
  ToString, lookup, get_feature_info, equal_range, category_path, read_entry, entries,
  get_event_meta_data,
}

-- All the names are names of features.
abbrev Listed : List (String × FeatureInfo) → List String → Type 0
Listed infos names = All (λ name. has_key name infos ≡ true) names

Known-Listed :
    (infos : List (String × FeatureInfo)) (categories : List (String × String)) (category : String)
    → Known infos categories
    → Listed infos (equal_range category categories)
Known-Listed infos [] category h = tt
Known-Listed infos ((k, name) ∷ categories) category h = elim (Bool-cases (str_eq k category)) [
  | inl e ↦ rw e (h.0, Known-Listed infos categories category h.1)
  | inr e ↦ rw e (Known-Listed infos categories category h.1)
]

has_key-lookup :
    {V : Type 0} (k : String) (m : List (String × V))
    → has_key k m ≡ true
    → (v : V) × (lookup k m ≡ some v)
has_key-lookup k [] h = absurd (ground (arith, h))
has_key-lookup k ((j, v) ∷ m) h = elim (Bool-cases (str_eq j k)) [
  | inl e ↦ (v, rw e)
  | inr e ↦ rw e (has_key-lookup k m (rw e at h))
]

module _ {D A : Type 0} where
  choose-Total : (b : Bool) (m n : Act D A) → Total m → Total n → Total (if b then m else n)
  choose-Total true m n h k = h
  choose-Total false m n h k = k

module _ (api : Api) (to_string : ToString api.Float) where
  string_get-Honest : (h : Handle) (name : String) → Honest (Vmb.feature_string_get api h name)
  unfolding Vmb.feature_string_get
  string_get-Honest h name =
      bind-Honest _ _ (call-Honest (api.vmb_feature_string_size h name)) λ size.
        bind-Honest _ _ (call-Honest (api.vmb_feature_string_get h name size))
          λ filled. pure-Honest _

  read_entry-Total :
      (type : ℕ) (name : String) (c : Camera) → Total (read_entry api to_string type name c)
  unfolding read_entry Features.feature_int_get Vmb.feature_int_get feature_bool_get
      feature_float_get Features.feature_string_get feature_enum_get
  read_entry-Total type name c =
      let h = get_module_handle c remote_device in
      choose-Total (type == 1) _ _
        (attempt_then-Total _ _ (call-Honest (api.vmb_feature_int_get h name)))
        (choose-Total (type == 5) _ _
          (attempt_then-Total _ _ (call-Honest (api.vmb_feature_bool_get h name)))
          (choose-Total (type == 2) _ _
            (attempt_then-Total _ _ (call-Honest (api.vmb_feature_float_get h name)))
            (choose-Total (type == 4) _ _ (attempt_then-Total _ _ (string_get-Honest h name)) (
              choose-Total (type == 3) _ _
                (attempt_then-Total _ _ (call-Honest (api.vmb_feature_enum_get h name)))
                (pure-Total [])))))

  entries-Total :
      (c : Camera) (names : List String)
      → Listed (c.feature_info_map remote_device) names
      → Total (entries api to_string c names)
  unfolding entries get_feature_info
  entries-Total c [] h = pure-Total []
  entries-Total c (name ∷ names) h =
      let (info, e) = has_key-lookup name (c.feature_info_map remote_device) h.0 in
      rw e (
        bind-Total _ _ (pure-Total info) λ info'.
          bind-Total _ _ (read_entry-Total info'.feature_data_type name c)
            λ entry. bind-Total _ _ (entries-Total c names h.1) λ rest. pure-Total _)

  -- On a camera in any state, streaming and with callbacks or not, whose map of categories names only
  -- features that its map of features has, as the constructor makes these maps, reading the data of an
  -- event returns a value, whatever the event's name is and whatever the library's calls return: the lookup of a feature's information
  -- never throws, and a feature whose value cannot be read ends nothing.
  pub get_event_meta_data-Total :
      (c : Camera)
      → Known (c.feature_info_map remote_device) (c.feature_category_map remote_device)
      → (name : String) → Total (get_event_meta_data api to_string name c)
  unfolding get_event_meta_data
  get_event_meta_data-Total c h name = entries-Total c _ (
      Known-Listed (c.feature_info_map remote_device) (c.feature_category_map remote_device)
        (category_path name) h)
