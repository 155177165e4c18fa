-- ===== src/Camera/Construct.antt =====
-- vimbax_camera.cpp: the constructor of VimbaXCamera, with the maps of features.
pub mod Fresh
use vimbax_ros2_driver.Common.{
  ℕ, String, Bool, true, false, Option, none, some, List, [], ◌∷◌, ◌++◌, ℤ, Act, Result, ok, err,
  null_dereference, pure, abort, attempt, ◌>>=◌, ◌>>◌, to_u64, if◌then◌else◌,
}
use vimbax_ros2_driver.Vmbc.{Api, Handle, CameraInfo, FeatureInfo}
use vimbax_ros2_driver.Vmbc.Features
use vimbax_ros2_driver.Camera.{
  Camera, Module, system, interface, local_device, remote_device, stream, stopped,
  get_module_handle, has_key, has_feature,
}
use vimbax_ros2_driver.Camera.Command.{run_on}

-- `emplace`: an entry whose key is there already is not added.
abbrev pub emplace {ℓ} : {V : Type ℓ} → String → V → List (String × V) → List (String × V)
emplace k v m = if has_key k m then m else m ++ (k, v) ∷ []

-- The two maps of a module, by the name of a feature and by its category.
pub record Maps : Type 0 where
  pub infos : List (String × FeatureInfo)
  pub categories : List (String × String)

-- A null pointer makes no std::string.
abbrev pub add_feature :
    {D : Type 0} → FeatureInfo → Option String → Option String → Maps → Act D Maps
add_feature info (some name) (some category) maps = pure (record {
  infos = emplace name info maps.infos;
  categories = maps.categories ++ (category, name) ∷ [];
})
add_feature info none category maps = abort null_dereference
add_feature info (some name) none maps = abort null_dereference

unfoldable pub add_features : {D : Type 0} → List FeatureInfo → Maps → Act D Maps
add_features [] maps = pure maps
add_features (info ∷ infos) maps = do
  maps' ← add_feature info info.name info.category maps
  add_features infos maps'

abbrev pub no_features : Maps
no_features = record { infos = []; categories = [] }

module _ (api : Api) where
  -- The codes of both calls are dropped.
  unfoldable pub initialize_feature_map : Handle → Act api.Dev Maps
  unfolding add_features
  initialize_feature_map handle d =
      let (e, size, d') = api.vmb_features_count handle d in
      let (e', infos, d'') = api.vmb_features_list handle size d' in
      add_features infos no_features d''

  -- The members before the constructor's body, with the camera's information.
  abbrev pub bare : Handle → CameraInfo → Camera
  bare handle info = record {
    camera_handle = handle;
    camera_info = info;
    timestamp_frequency = none;
    feature_info_map = λ m. [];
    feature_category_map = λ m. [];
    frames = [];
    stream_state = stopped;
    frame_ready_queue = [];
    frame_processing_thread = false;
    frame_processing_enable = false;
    invalidation_callbacks = [];
  }

  abbrev pub infos_of : Maps → Maps → Maps → Maps → Maps → Module → List (String × FeatureInfo)
  infos_of s i l r t system = s.infos
  infos_of s i l r t interface = i.infos
  infos_of s i l r t local_device = l.infos
  infos_of s i l r t remote_device = r.infos
  infos_of s i l r t stream = t.infos

  abbrev pub categories_of : Maps → Maps → Maps → Maps → Maps → Module → List (String × String)
  categories_of s i l r t system = s.categories
  categories_of s i l r t interface = i.categories
  categories_of s i l r t local_device = l.categories
  categories_of s i l r t remote_device = r.categories
  categories_of s i l r t stream = t.categories

  unfoldable pub with_maps : Camera → Act api.Dev Camera
  unfolding initialize_feature_map get_module_handle
  with_maps c = do
    s ← initialize_feature_map (get_module_handle c system)
    i ← initialize_feature_map (get_module_handle c interface)
    l ← initialize_feature_map (get_module_handle c local_device)
    r ← initialize_feature_map (get_module_handle c remote_device)
    t ← initialize_feature_map (get_module_handle c stream)
    pure (record c {
      feature_info_map = infos_of s i l r t;
      feature_category_map = categories_of s i l r t;
    })

  -- `timestamp_frequency_ = *timestamp_frequency`, on uint64_t.
  abbrev pub frequency_of : Result ℤ → Option ℕ
  frequency_of (ok z) = some (to_u64 z)
  frequency_of (err e) = none

  unfoldable pub read_frequency : Bool → Camera → Act api.Dev Camera
  read_frequency true c = do
    res ←
        attempt (
          Features.feature_int_get api (get_module_handle c local_device)
            "DeviceTimestampFrequency")
    pure (record c { timestamp_frequency = frequency_of res })
  read_frequency false c = pure c

  unfoldable pub adjust_packet_size : Bool → Camera → Act api.Dev Camera
  adjust_packet_size true c = do
    res ← attempt (run_on api "GVSPAdjustPacketSize" (get_module_handle c stream) none)
    pure c
  adjust_packet_size false c = pure c

  unfoldable pub fill : Camera → Act api.Dev Camera
  unfolding with_maps read_frequency adjust_packet_size
  fill c = do
    c1 ← with_maps c
    c2 ← read_frequency (has_feature c1 "DeviceTimestampFrequency" local_device) c1
    adjust_packet_size (has_feature c2 "GVSPAdjustPacketSize" stream) c2

  -- The error of the query is logged only.
  unfoldable pub construct : Handle → Act api.Dev Camera
  unfolding fill
  construct handle d =
      let (e, info, d') = api.vmb_camera_info_query_by_handle handle d in fill (bare handle info) d'
