-- ===== src/Camera/Open.antt =====
-- vimbax_camera.cpp: opening a camera, by its names or by its address.
pub mod Network
pub mod Search
pub mod Opened
use vimbax_ros2_driver.Common.{
  ℕ, zero, suc, ◌+◌, ◌-◌, ◌/◌, ◌%◌, String, Bool, true, false, Option, none, some, List, [], ◌∷◌, ℤ,
  pos, negsuc, Exit, value, error, aborted, Act, Result, ok, err, pure, attempt, is_ok, ◌>>=◌, ◌>>◌,
  ◌==◌, ◌&&◌, ◌||◌, leb, if◌then◌else◌, int_eq, to_u64, str_eq, codes, bit_and, not,
}
use vimbax_ros2_driver.Vmbc.{Api, Handle, CameraInfo, InterfaceInfo}
use vimbax_ros2_driver.Vmbc.Features
use vimbax_ros2_driver.Vmbc.Features.{call}
use vimbax_ros2_driver.Address.{decode_ip_addr}
use vimbax_ros2_driver.Address.Mac.{decode_mac_addr}
use vimbax_ros2_driver.Camera.{Camera}
use vimbax_ros2_driver.Camera.Construct.{construct}

-- VmbTransportLayerTypeGEV and VmbAccessModeExclusive
abbrev pub type_gev : ℕ
type_gev = 1

abbrev pub access_exclusive : ℕ
access_exclusive = 8

-- The lambda that check_addr yields.
pub data AddressCheck : Type 0 where
  by_ip by_mac : ℕ → AddressCheck

abbrev mac_check : Exit (Option ℕ) → Exit (Option AddressCheck)
mac_check (value none) = value none
mac_check (value (some mac)) = value (some (by_mac mac))
mac_check (error e) = error e
mac_check (aborted x) = aborted x

unfoldable pub check_addr : List ℕ → Exit (Option AddressCheck)
check_addr addr = elim (decode_ip_addr addr) [
  | some ip ↦ value (some (by_ip ip))
  | none ↦ mac_check (decode_mac_addr addr)
]

-- The uint32_t is widened to the int64_t of the device; the int64_t is read as uint64_t.
abbrev pub same_ip : ℕ → Result ℤ → Bool
same_ip ip (ok z) = int_eq (pos ip) z
same_ip ip (err e) = false

abbrev pub same_mac : ℕ → Result ℤ → Bool
same_mac mac (ok z) = mac == to_u64 z
same_mac mac (err e) = false

-- `for (i = lo; i <= hi; i++)`: the number of rounds, and the next `i`. `hi` is below the largest
-- int64_t, on which `i++` overflows.
abbrev pub span : ℤ → ℤ → ℕ
span (pos a) (pos b) = suc b - a
span (pos a) (negsuc b) = 0
span (negsuc a) (pos b) = suc a + suc b
span (negsuc a) (negsuc b) = suc a - b

abbrev pub next : ℤ → ℤ
next (pos a) = pos (suc a)
next (negsuc zero) = pos 0
next (negsuc (suc a)) = negsuc a

-- The code is a raised exception, or none.
abbrev pub lift : {D A : Type 0} → Exit A → Act D A
lift r d = (r, d)

module _ (api : Api) where
  unfoldable pub matches : AddressCheck → Handle → Act api.Dev Bool
  matches (by_ip ip) handle = do
    res ← attempt (Features.feature_int_get api handle "GevDeviceIPAddress")
    pure (same_ip ip res)
  matches (by_mac mac) handle = do
    res ← attempt (Features.feature_int_get api handle "GevDeviceMACAddress")
    pure (same_mac mac res)

  abbrev pub id_of : Result String → Option String
  id_of (ok id) = some id
  id_of (err e) = none

  read_device_id : Bool → Handle → Act api.Dev (Option String)
  read_device_id true handle = do
    res ← attempt (Features.feature_string_get api handle "DeviceID")
    pure (id_of res)
  read_device_id false handle = pure none

  abbrev matches_if : Bool → AddressCheck → Handle → Act api.Dev Bool
  matches_if true check handle = matches check handle
  matches_if false check handle = pure false

  -- One round of the loop over the devices of an interface: the id, if it is the one.
  unfoldable pub try_device : AddressCheck → Handle → ℤ → Act api.Dev (Option String)
  unfolding matches read_device_id
  try_device check handle i = do
    selected ← attempt (Features.feature_int_set api handle "DeviceSelector" i)
    found ← matches_if (is_ok selected) check handle
    read_device_id found handle

  abbrev pub or_else : Option String → Act api.Dev (Option String) → Act api.Dev (Option String)
  or_else (some id) m = pure (some id)
  or_else none m = m

  unfoldable pub devices : AddressCheck → Handle → ℕ → ℤ → Act api.Dev (Option String)
  unfolding try_device
  devices check handle zero i = pure none
  devices check handle (suc rounds) i =
      let rest = devices check handle rounds (next i) in
      do found ← try_device check handle i; or_else found rest

  abbrev pub devices_of : AddressCheck → Handle → Result (ℤ × ℤ × ℤ) → Act api.Dev (Option String)
  devices_of check handle (ok (lo, hi, inc)) = devices check handle (span lo hi) lo
  devices_of check handle (err e) = pure none

  unfoldable pub gev_interface : Bool → AddressCheck → Handle → Act api.Dev (Option String)
  unfolding devices
  gev_interface true check handle = do
    selector_info ← attempt (Features.feature_int_info_get api handle "DeviceSelector")
    devices_of check handle selector_info
  gev_interface false check handle = pure none

  unfoldable pub interfaces : AddressCheck → List InterfaceInfo → Act api.Dev (Option String)
  unfolding gev_interface
  interfaces check [] = pure none
  interfaces check (i ∷ list) =
      let rest = interfaces check list in
      do
        found ← gev_interface (i.interface_type == type_gev) check i.interface_handle
        or_else found rest

  -- VmbCAPI::interface_list_get
  unfoldable pub interface_list_get : Act api.Dev (List InterfaceInfo)
  interface_list_get = do
    length ← call api.vmb_interfaces_count
    call (api.vmb_interfaces_list length)

  abbrev pub interfaces_of :
      AddressCheck → Result (List InterfaceInfo) → Act api.Dev (Option String)
  interfaces_of check (ok list) = interfaces check list
  interfaces_of check (err e) = pure none

  unfoldable pub find_by : Option AddressCheck → Act api.Dev (Option String)
  unfolding interfaces interface_list_get
  find_by none = pure none
  find_by (some check) = do list ← attempt interface_list_get; interfaces_of check list

  unfoldable pub get_camera_id_from_addr : List ℕ → Act api.Dev (Option String)
  unfolding check_addr find_by
  get_camera_id_from_addr addr = do check ← lift (check_addr addr); find_by check

  -- The two calls of CamerasList; an error of either makes an empty list.
  abbrev pub list_or_empty : Result (List CameraInfo) → List CameraInfo
  list_or_empty (ok list) = list
  list_or_empty (err e) = []

  unfoldable pub available_cameras : Act api.Dev (List CameraInfo)
  available_cameras = do
    res ← attempt (do count ← call api.vmb_cameras_count; call (api.vmb_cameras_list count))
    pure (list_or_empty res)

  abbrev pub construct_if : Result Handle → Act api.Dev (Option Camera)
  construct_if (ok handle) = do c ← construct api handle; pure (some c)
  construct_if (err e) = pure none

  -- open_camera, and the constructor if it gives a handle.
  unfoldable pub open_camera : String → Act api.Dev (Option Camera)
  open_camera id = do handle ← attempt (call (api.vmb_camera_open id)); construct_if handle

  abbrev pub or_open : Option Camera → Act api.Dev (Option Camera) → Act api.Dev (Option Camera)
  or_open (some c) m = pure (some c)
  or_open none m = m

  abbrev pub open_if : Bool → String → Act api.Dev (Option Camera)
  open_if true id = open_camera id
  open_if false id = pure none

  -- The loops over the available cameras, with the test that each of them makes.
  unfoldable pub open_listed : (CameraInfo → Bool) → List CameraInfo → Act api.Dev (Option Camera)
  unfolding open_camera
  open_listed test [] = pure none
  open_listed test (info ∷ list) =
      let rest = open_listed test list in
      do opened ← open_if (test info) info.camera_id_extended; or_open opened rest

  abbrev pub check_access : CameraInfo → Bool
  check_access info = not (bit_and info.permitted_access access_exclusive == 0)

  abbrev pub check_camera_info : String → CameraInfo → Bool
  check_camera_info name info =
      str_eq info.camera_id_string name
      || str_eq info.camera_id_extended name
      || str_eq info.serial_string name

  open_by_id : Option String → Act api.Dev (Option Camera)
  open_by_id none = pure none
  open_by_id (some id) = open_camera id

  -- By its address, and at last by the name itself.
  unfoldable pub open_unlisted : String → Act api.Dev (Option Camera)
  unfolding get_camera_id_from_addr open_by_id open_camera
  open_unlisted name = do
    id ← get_camera_id_from_addr (codes name)
    opened ← open_by_id id
    or_open opened (open_camera name)

  unfoldable pub open_named : String → List CameraInfo → Act api.Dev (Option Camera)
  unfolding open_unlisted open_listed
  open_named name list = do
    opened ← open_listed (λ info. check_camera_info name info && check_access info) list
    or_open opened (open_unlisted name)

  -- VimbaXCamera::open. None is the null pointer.
  unfoldable pub open_by_name : String → Act api.Dev (Option Camera)
  unfolding open_named open_listed available_cameras
  open_by_name name = do
    list ← available_cameras
    if str_eq name "" then open_listed check_access list else open_named name list
