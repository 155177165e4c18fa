-- ===== src/Camera/Command.antt =====
-- vimbax_camera.cpp: running a command feature and polling until it is done. A steady clock does not
-- go back, so the difference of two readings is not negative.
pub mod Ends
use vimbax_ros2_driver.Common.{
  ℕ, zero, suc, ◌+◌, ◌-◌, ◌*◌, ◌/◌, String, Bool, Option, none, some, Act, Abort, out_of_fuel, pure,
  fail, abort, modify, ◌>>=◌, ◌>>◌, leb, if◌then◌else◌,
}
use vimbax_ros2_driver.Error.{timeout}
use vimbax_ros2_driver.Vmbc.{Api, Handle}
use vimbax_ros2_driver.Vmbc.Features.{call}
use vimbax_ros2_driver.Camera.{Camera, Module, get_module_handle}

-- `timeout.value_or(1s)`, in milliseconds.
abbrev pub timeout_or_default : Option ℕ → ℕ
timeout_or_default none = 1000
timeout_or_default (some ms) = ms

-- A round sleeps 100 ms, so that many rounds outlast the timeout.
abbrev pub rounds : ℕ → ℕ
rounds limit = limit / 100 + 1

module _ (api : Api) where
  abbrev timed_out : ℕ → ℕ → Act api.Dev Bool
  timed_out start limit d = pure (leb limit (api.now d - start)) d

  -- The body of the `do … while (!done)`: the test of the clock comes before that of `done`.
  unfoldable pub poll : Handle → String → ℕ → ℕ → ℕ → Act api.Dev (Unit {0})
  poll handle name start limit zero = abort out_of_fuel
  poll handle name start limit (suc fuel) =
      let again = poll handle name start limit fuel in
      do
        done ← call (api.vmb_feature_command_is_done handle name)
        modify (api.sleep_for 100)
        late ← timed_out start limit
        if late then fail timeout else if done then pure tt else again

  unfoldable pub run_on : String → Handle → Option ℕ → Act api.Dev (Unit {0})
  unfolding poll
  run_on name handle limit = do
    call (api.vmb_feature_command_run handle name)
    let limit = timeout_or_default limit
    (λ d. poll handle name (api.now d) limit (rounds limit) d)

  unfoldable pub feature_command_run : Camera → String → Option ℕ → Module → Act api.Dev (Unit {0})
  unfolding run_on
  feature_command_run c name limit m = run_on name (get_module_handle c m) limit
