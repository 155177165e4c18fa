-- ===== src/Camera/Open/Search.antt =====
-- The search for the device with an address.
use vimbax_ros2_driver.Common.{ℕ, ◌≡◌, ℤ, pos, Result, ok}
use vimbax_ros2_driver.Common.Runs.{Runs}
use vimbax_ros2_driver.Vmbc.{Api, Handle}
use vimbax_ros2_driver.Vmbc.Features
use vimbax_ros2_driver.Vmbc.Features.{call, assign}
use vimbax_ros2_driver.Camera.Open.Network.{Network, last_index}

module _ {api : Api} (network : Network api) (address : ℕ) where
  abbrev Any : api.Dev → Type 0
  Any d = Unit {0}

  -- The range of the selector, whatever its increment.
  IsRange : Handle → Result (ℤ × ℤ × ℤ) → Type 0
  IsRange h res = (inc : ℤ) × (res ≡ ok (pos 0, last_index (network.count h), inc))
