-- ===== src/Camera/Invalidation/Dispatch.antt =====
-- Which callback the notice of an invalidated feature runs.
use vimbax_ros2_driver.Common.{
  ℕ, ◌≡◌, refl, String, Bool, true, Option, none, some, List, [], ◌∷◌, ◌++◌, arith, ◌>>=◌, str_eq,
  eq_iff, if◌then◌else◌,
}
use vimbax_ros2_driver.Vmbc.{Api}
use vimbax_ros2_driver.Camera.{World, on_dev, update, has_key}
use vimbax_ros2_driver.Camera.Construct.{emplace}
use vimbax_ros2_driver.Camera.Invalidation.{
  lookup, erase_key, on_feature_invalidation, feature_invalidation_register,
  feature_invalidation_unregister,
}

-- The entry of the map, or else `v` for the key `k`.
abbrev pub or_new : {V : Type 0} → Option V → Bool → V → Option V
or_new (some u) new v = some u
or_new none new v = if new then some v else none

module _ {V : Type 0} where
  lookup-append :
      (j k : String) (v : V) (m : List (String × V))
      → lookup j (m ++ (k, v) ∷ []) ≡ or_new (lookup j m) (str_eq k j) v
  lookup-append j k v [] = refl
  lookup-append j k v ((i, u) ∷ m) = ground (arith, lookup-append j k v m)

  lookup-present :
      (j k : String) (v : V) (m : List (String × V))
      → has_key k m ≡ true
      → lookup j m ≡ or_new (lookup j m) (str_eq k j) v
  lookup-present j k v [] h = ground (arith, h)
  lookup-present j k v ((i, u) ∷ m) h =
      ground (arith, eq_iff i j, eq_iff i k, eq_iff k j, lookup-present j k v m)

  lookup-emplace :
      (j k : String) (v : V) (m : List (String × V))
      → lookup j (emplace k v m) ≡ or_new (lookup j m) (str_eq k j) v
  lookup-emplace j k v m = ground (arith, lookup-append j k v m, lookup-present j k v m)

  lookup-erase_key :
      (j k : String) (m : List (String × V))
      → lookup j (erase_key k m) ≡ (if str_eq k j then none else lookup j m)
  lookup-erase_key j k [] = ground arith
  lookup-erase_key j k ((i, u) ∷ m) =
      ground (arith, eq_iff i j, eq_iff i k, eq_iff k j, lookup-erase_key j k m)

module _ (api : Api) (w : World api.Dev) where
  -- After `feature_invalidation_register` of a name, the notice of a feature runs the callback that it
  -- ran before, if there was one: the first callback of a name stays. If there was none, the notice of
  -- that name runs the new callback, and that of another name none. After
  -- `feature_invalidation_unregister` the notice of that name runs none, and that of another name what
  -- it ran before. All of this holds also where the library refuses the call.
  pub on_feature_invalidation-register :
      (j name : String) (callback : ℕ)
      → (on_feature_invalidation j (feature_invalidation_register api name callback w).1.camera
          ≡ or_new (on_feature_invalidation j w.camera) (str_eq name j) callback)
        × (on_feature_invalidation j (feature_invalidation_unregister api name w).1.camera
            ≡ (if str_eq name j then none else on_feature_invalidation j w.camera))
  unfolding on_feature_invalidation feature_invalidation_register feature_invalidation_unregister
      update on_dev ◌>>=◌
  on_feature_invalidation-register j name callback = (
    lookup-emplace j name callback w.camera.invalidation_callbacks,
    lookup-erase_key j name w.camera.invalidation_callbacks,
  )
