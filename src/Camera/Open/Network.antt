-- ===== src/Camera/Open/Network.antt =====
-- The devices behind the interfaces, and the search that open should make of them.
use vimbax_ros2_driver.Common.{
  ℕ, zero, suc, length, ◌≤◌, ◌<◌, ◌≡◌, String, Option, none, some, List, [], ◌∷◌, ℤ, pos, negsuc,
  ◌==◌, if◌then◌else◌,
}
use vimbax_ros2_driver.Error.{success}
use vimbax_ros2_driver.Vmbc.{Api, Handle, InterfaceInfo}
use vimbax_ros2_driver.Vmbc.Features.{assign}
use vimbax_ros2_driver.Camera.Open.{type_gev}

-- The largest value of a selector of `count` devices.
abbrev pub last_index : ℕ → ℤ
last_index zero = negsuc 0
last_index (suc n) = pos n

-- What VmbC says of its interfaces: their list; the devices of an interface, each with its address, its
-- id and the buffer that the id needs; and the selector, which makes the device's features readable. A
-- list or a text is read whole into a buffer that is long enough; of shorter ones nothing is said.
pub record Network (api : Api) : Type 1 where
  pub list : List InterfaceInfo
  pub count : Handle → ℕ
  pub address : Handle → ℕ → ℕ
  pub id : Handle → ℕ → String
  pub id_length : Handle → ℕ → ℕ
  pub Selected : Handle → ℕ → api.Dev → Type 0
  pub interfaces_count :
      (d : api.Dev)
      → ((api.vmb_interfaces_count d).0 ≡ success) × ((api.vmb_interfaces_count d).1 ≡ length list)
  pub interfaces_list :
      (n : ℕ) (d : api.Dev)
      → length list ≤ n
      → ((api.vmb_interfaces_list n d).0 ≡ success) × ((api.vmb_interfaces_list n d).1 ≡ list)
  pub range :
      (h : Handle) (d : api.Dev)
      → ((api.vmb_feature_int_range_query h "DeviceSelector" d).0 ≡ success)
        × ((api.vmb_feature_int_range_query h "DeviceSelector" d).1 ≡ (pos 0, last_index (count h)))
  pub increment :
      (h : Handle) (d : api.Dev)
      → (api.vmb_feature_int_increment_query h "DeviceSelector" d).0 ≡ success
  pub select :
      (h : Handle) (i : ℕ) (d : api.Dev)
      → i < count h
      → ((api.vmb_feature_int_set h "DeviceSelector" (pos i) d).0 ≡ success)
        × Selected h i (api.vmb_feature_int_set h "DeviceSelector" (pos i) d).2
  pub ip :
      (h : Handle) (i : ℕ) (d : api.Dev)
      → Selected h i d
      → ((api.vmb_feature_int_get h "GevDeviceIPAddress" d).0 ≡ success)
        × ((api.vmb_feature_int_get h "GevDeviceIPAddress" d).1 ≡ pos (address h i))
        × Selected h i (api.vmb_feature_int_get h "GevDeviceIPAddress" d).2
  pub id_size :
      (h : Handle) (i : ℕ) (d : api.Dev)
      → Selected h i d
      → ((api.vmb_feature_string_size h "DeviceID" d).0 ≡ success)
        × ((api.vmb_feature_string_size h "DeviceID" d).1 ≡ id_length h i)
        × Selected h i (api.vmb_feature_string_size h "DeviceID" d).2
  pub id_get :
      (h : Handle) (i n : ℕ) (d : api.Dev)
      → Selected h i d
      → id_length h i ≤ n
      → ((api.vmb_feature_string_get h "DeviceID" n d).0 ≡ success)
        × (assign
              (api.vmb_feature_string_get h "DeviceID" n d).1.0
              (api.vmb_feature_string_get h "DeviceID" n d).1.1
            ≡ id h i)

module _ {api : Api} (network : Network api) (address : ℕ) where
  -- The first device with the address, among `rounds` of them from the i-th on.
  unfoldable pub find_device : Handle → ℕ → ℕ → Option String
  find_device h i zero = none
  find_device h i (suc rounds) =
      if address == network.address h i then some (network.id h i) else find_device h (suc i) rounds

  abbrev pub or_next : Option String → Option String → Option String
  or_next (some id) next = some id
  or_next none next = next

  -- The first such device of the GEV interfaces.
  unfoldable pub find_on : List InterfaceInfo → Option String
  find_on [] = none
  find_on (i ∷ list) =
      if i.interface_type == type_gev
      then or_next (find_device i.interface_handle 0 (network.count i.interface_handle))
          (find_on list)
      else find_on list
