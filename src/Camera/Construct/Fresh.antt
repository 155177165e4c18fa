-- ===== src/Camera/Construct/Fresh.antt =====
-- What the constructor leaves.
use vimbax_ros2_driver.Common.{
  ◌≡◌, refl, String, Bool, true, false, Option, none, some, List, [], ◌∷◌, ◌++◌, ◌||◌, All, arith,
  eq_iff,
}
use vimbax_ros2_driver.Common.Ensures.{
  Ensures, Ensures-bind, Ensures-pure, Ensures-abort, Ensures-any,
}
use vimbax_ros2_driver.Vmbc.{Api, Handle, FeatureInfo}
use vimbax_ros2_driver.Camera.{
  Camera, Module, system, interface, local_device, remote_device, stream, has_key,
}
use vimbax_ros2_driver.Camera.Construct.{
  Maps, emplace, add_feature, add_features, no_features, initialize_feature_map, bare, infos_of,
  categories_of, with_maps, read_frequency, adjust_packet_size, fill, construct,
}
use vimbax_ros2_driver.Camera.Stream.Outcomes.{Idle}

-- Every feature of a category is one of the map of features.
abbrev pub Known : List (String × FeatureInfo) → List (String × String) → Type 0
Known infos categories = All (λ (e : String × String). has_key e.1 infos ≡ true) categories

abbrev KnownMaps : Maps → Type 0
KnownMaps maps = Known maps.infos maps.categories

-- An idle camera without callbacks, whose categories name features that it has.
pub record Fresh (handle : Handle) (c : Camera) : Type 0 where
  pub opened : c.camera_handle ≡ handle
  pub idle : Idle [] c
  pub silent : c.invalidation_callbacks ≡ []
  pub known : (m : Module) → Known (c.feature_info_map m) (c.feature_category_map m)

has_key-append :
    {V : Type 0} (k : String) (m n : List (String × V))
    → has_key k (m ++ n) ≡ (has_key k m || has_key k n)
has_key-append k [] n = refl
has_key-append k ((j, v) ∷ m) n = ground (arith, has_key-append k m n)

has_key-emplace :
    {V : Type 0} (k : String) (v : V) (m : List (String × V)) → has_key k (emplace k v m) ≡ true
has_key-emplace k v m = ground (arith, has_key-append k m ((k, v) ∷ []), eq_iff k k)

has_key-emplace_other :
    {V : Type 0} (j k : String) (v : V) (m : List (String × V))
    → has_key j m ≡ true
    → has_key j (emplace k v m) ≡ true
has_key-emplace_other j k v m h = ground (arith, has_key-append j m ((k, v) ∷ []))

Known-emplace :
    (name : String) (info : FeatureInfo) (infos : List (String × FeatureInfo))
    (categories : List (String × String)) (category : String)
    → Known infos categories
    → Known (emplace name info infos) (categories ++ (category, name) ∷ [])
Known-emplace name info infos [] category h = (has_key-emplace name info infos, tt)
Known-emplace name info infos ((c, n) ∷ categories) category h = (
  has_key-emplace_other n name info infos h.0,
  Known-emplace name info infos categories category h.1,
)

module _ {D : Type 0} where
  add_feature-KnownMaps :
      (info : FeatureInfo) (name category : Option String) (maps : Maps)
      → KnownMaps maps
      → Ensures {S = D} KnownMaps (add_feature info name category maps)
  add_feature-KnownMaps info (some name) (some category) maps h =
      Ensures-pure _ (Known-emplace name info maps.infos maps.categories category h)
  add_feature-KnownMaps info none category maps h = Ensures-abort _
  add_feature-KnownMaps info (some name) none maps h = Ensures-abort _

  add_features-KnownMaps :
      (infos : List FeatureInfo) (maps : Maps)
      → KnownMaps maps
      → Ensures {S = D} KnownMaps (add_features infos maps)
  unfolding add_features
  add_features-KnownMaps [] maps h = Ensures-pure maps h
  add_features-KnownMaps (info ∷ infos) maps h =
      Ensures-bind _ _ (add_feature-KnownMaps info info.name info.category maps h)
        (λ maps' k. add_features-KnownMaps infos maps' k)

module _ (api : Api) where
  initialize-KnownMaps : (handle : Handle) → Ensures KnownMaps (initialize_feature_map api handle)
  unfolding initialize_feature_map
  initialize-KnownMaps handle = record { at = λ d. (add_features-KnownMaps _ no_features tt).at _ }

  module _ (handle : Handle) (c : Camera) (opened : c.camera_handle ≡ handle) (idle : Idle [] c)
      (silent : c.invalidation_callbacks ≡ []) where
    Fresh-infos :
        (s i l r t : Maps)
        → KnownMaps s
        → KnownMaps i
        → KnownMaps l
        → KnownMaps r
        → KnownMaps t
        → (m : Module) → Known (infos_of api s i l r t m) (categories_of api s i l r t m)
    Fresh-infos s i l r t hs hi hl hr ht system = hs
    Fresh-infos s i l r t hs hi hl hr ht interface = hi
    Fresh-infos s i l r t hs hi hl hr ht local_device = hl
    Fresh-infos s i l r t hs hi hl hr ht remote_device = hr
    Fresh-infos s i l r t hs hi hl hr ht stream = ht

    with_maps-Fresh : Ensures (Fresh handle) (with_maps api c)
    unfolding with_maps
    with_maps-Fresh = Ensures-bind _ _ (initialize-KnownMaps _) λ s hs.
        Ensures-bind _ _ (initialize-KnownMaps _) λ i hi.
          Ensures-bind _ _ (initialize-KnownMaps _) λ l hl.
            Ensures-bind _ _ (initialize-KnownMaps _) λ r hr.
              Ensures-bind _ _ (initialize-KnownMaps _) λ t ht. Ensures-pure _ (record {
                opened = opened;
                idle = record {
                  state = idle.state;
                  frames = idle.frames;
                  thread = idle.thread;
                  ready = idle.ready;
                };
                silent = silent;
                known = Fresh-infos s i l r t hs hi hl hr ht;
              })

  read_frequency-Fresh :
      (handle : Handle) (b : Bool) (c : Camera)
      → Fresh handle c
      → Ensures (Fresh handle) (read_frequency api b c)
  unfolding read_frequency
  read_frequency-Fresh handle true c h = Ensures-bind _ _ (Ensures-any _) λ res u.
      Ensures-pure _ (record {
        opened = h.opened;
        idle = record {
          state = h.idle.state;
          frames = h.idle.frames;
          thread = h.idle.thread;
          ready = h.idle.ready;
        };
        silent = h.silent;
        known = h.known;
      })
  read_frequency-Fresh handle false c h = Ensures-pure c h

  adjust_packet_size-Fresh :
      (handle : Handle) (b : Bool) (c : Camera)
      → Fresh handle c
      → Ensures (Fresh handle) (adjust_packet_size api b c)
  unfolding adjust_packet_size
  adjust_packet_size-Fresh handle true c h =
      Ensures-bind _ _ (Ensures-any _) λ res u. Ensures-pure c h
  adjust_packet_size-Fresh handle false c h = Ensures-pure c h

  pub construct-Fresh : (handle : Handle) → Ensures (Fresh handle) (construct api handle)
  unfolding construct fill
  construct-Fresh handle = record {
    at = λ d.
        (Ensures-bind {Q = Fresh handle} {P = Fresh handle} _ _
            (with_maps-Fresh handle
              (bare api handle (api.vmb_camera_info_query_by_handle handle d).1) refl
              (record { state = refl; frames = refl; thread = refl; ready = refl }) refl)
            λ c1 h1.
              Ensures-bind {P = Fresh handle} _ _ (read_frequency-Fresh handle _ c1 h1)
                λ c2 h2. adjust_packet_size-Fresh handle _ c2 h2).at
          _;
  }
