-- ===== src/Camera/Open/Opened.antt =====
-- What VimbaXCamera::open gives.
use vimbax_ros2_driver.Common.{
  String, Bool, true, false, Option, none, some, List, [], ◌∷◌, Act, Result, ok, err, attempt,
  str_eq, codes, if◌then◌else◌,
}
use vimbax_ros2_driver.Common.Ensures.{Ensures, Ensures-bind, Ensures-pure, Ensures-any}
use vimbax_ros2_driver.Vmbc.{Api, Handle, CameraInfo}
use vimbax_ros2_driver.Vmbc.Features.{call}
use vimbax_ros2_driver.Camera.{Camera}
use vimbax_ros2_driver.Camera.Construct.Fresh.{Fresh, construct-Fresh}
use vimbax_ros2_driver.Camera.Open.{
  open_by_name, open_named, open_listed, open_unlisted, open_camera, open_if, open_by_id, or_open,
  construct_if, available_cameras, get_camera_id_from_addr,
}

-- A null pointer, or a fresh camera.
abbrev pub FreshIfAny : Option Camera → Type 0
FreshIfAny none = Unit {0}
FreshIfAny (some c) = (handle : Handle) × Fresh handle c

module _ (api : Api) where
  construct_if-FreshIfAny : (r : Result Handle) → Ensures FreshIfAny (construct_if api r)
  construct_if-FreshIfAny (ok handle) =
      Ensures-bind _ _ (construct-Fresh api handle) λ c h. Ensures-pure (some c) (handle, h)
  construct_if-FreshIfAny (err e) = Ensures-pure none tt

  open_camera-FreshIfAny : (id : String) → Ensures FreshIfAny (open_camera api id)
  unfolding open_camera
  open_camera-FreshIfAny id =
      Ensures-bind _ _ (Ensures-any (attempt (call (api.vmb_camera_open id))))
        λ r u. construct_if-FreshIfAny r

  or_open-FreshIfAny :
      (o : Option Camera) (m : Act api.Dev (Option Camera))
      → FreshIfAny o
      → Ensures FreshIfAny m
      → Ensures FreshIfAny (or_open api o m)
  or_open-FreshIfAny (some c) m h k = Ensures-pure (some c) h
  or_open-FreshIfAny none m h k = k

  open_if-FreshIfAny : (b : Bool) (id : String) → Ensures FreshIfAny (open_if api b id)
  open_if-FreshIfAny true id = open_camera-FreshIfAny id
  open_if-FreshIfAny false id = Ensures-pure none tt

  open_listed-FreshIfAny :
      (test : CameraInfo → Bool) (list : List CameraInfo)
      → Ensures FreshIfAny (open_listed api test list)
  unfolding open_listed
  open_listed-FreshIfAny test [] = Ensures-pure none tt
  open_listed-FreshIfAny test (info ∷ list) =
      Ensures-bind _ _ (open_if-FreshIfAny (test info) info.camera_id_extended)
        λ o h. or_open-FreshIfAny o _ h (open_listed-FreshIfAny test list)

  open_by_id-FreshIfAny : (o : Option String) → Ensures FreshIfAny (open_by_id api o)
  unfolding open_by_id
  open_by_id-FreshIfAny none = Ensures-pure none tt
  open_by_id-FreshIfAny (some id) = open_camera-FreshIfAny id

  open_unlisted-FreshIfAny : (name : String) → Ensures FreshIfAny (open_unlisted api name)
  unfolding open_unlisted
  open_unlisted-FreshIfAny name =
      Ensures-bind _ _ (Ensures-any (get_camera_id_from_addr api (codes name))) λ id u.
        Ensures-bind _ _ (open_by_id-FreshIfAny id)
          λ o h. or_open-FreshIfAny o _ h (open_camera-FreshIfAny name)

  open_named-FreshIfAny :
      (name : String) (list : List CameraInfo) → Ensures FreshIfAny (open_named api name list)
  unfolding open_named
  open_named-FreshIfAny name list =
      Ensures-bind _ _ (open_listed-FreshIfAny _ list)
        λ o h. or_open-FreshIfAny o _ h (open_unlisted-FreshIfAny name)

  choose-FreshIfAny :
      (b : Bool) (m n : Act api.Dev (Option Camera))
      → Ensures FreshIfAny m
      → Ensures FreshIfAny n
      → Ensures FreshIfAny (if b then m else n)
  choose-FreshIfAny true m n h k = h
  choose-FreshIfAny false m n h k = k

  -- Whatever the name and the library do, an open that returns yields the null pointer or an idle
  -- camera (stopped, with no frame, no thread and an empty queue), in which every feature that a
  -- category of a module names is one of that module's features.
  pub open_by_name-FreshIfAny : (name : String) → Ensures FreshIfAny (open_by_name api name)
  unfolding open_by_name
  open_by_name-FreshIfAny name = Ensures-bind _ _ (Ensures-any (available_cameras api)) λ list u.
      choose-FreshIfAny (str_eq name "") _ _ (open_listed-FreshIfAny _ list)
        (open_named-FreshIfAny name list)
