-- ===== src/Camera/Command/Ends.antt =====
-- The polling loop ends, and what its timeout means.
use vimbax_ros2_driver.Common.{
  ℕ, zero, suc, ◌+◌, ◌*◌, ◌/◌, ◌≤◌, String, Option, some, Exit, value, error, aborted, ◌>>=◌, arith,
}
use vimbax_ros2_driver.Vmbc.{Api, Handle}
use vimbax_ros2_driver.Camera.{Camera, Module, get_module_handle}
use vimbax_ros2_driver.Camera.Command.{
  timeout_or_default, rounds, poll, run_on, feature_command_run,
}

-- What the loop relies on: sleep_for blocks at least as long as asked, and the clock is steady.
pub record ClockLaws (api : Api) : Type 0 where
  pub sleeps : (ms : ℕ) (d : api.Dev) → api.now d + ms ≤ api.now (api.sleep_for ms d)
  pub steady :
      (h : Handle) (name : String) (d : api.Dev)
      → api.now d ≤ api.now (api.vmb_feature_command_is_done h name d).2

-- The body was left by a `return`.
abbrev pub Returns : {A : Type 0} → Exit A → Type 0
Returns (value a) = Unit
Returns (error e) = Unit
Returns (aborted x) = ⊥

-- The body did not return success.
abbrev pub NoValue : {A : Type 0} → Exit A → Type 0
NoValue (value a) = ⊥
NoValue (error e) = Unit
NoValue (aborted x) = Unit

module _ (api : Api) (laws : ClockLaws api) (h : Handle) (name : String) (start limit : ℕ) where
  poll-Returns :
      (fuel : ℕ) (d : api.Dev)
      → start + limit ≤ api.now d + 100 * suc fuel
      → Returns (poll api h name start limit (suc fuel) d).0
  unfolding poll ◌>>=◌
  poll-Returns zero d e =
      ground
        (arith, laws.steady h name d, laws.sleeps 100 (api.vmb_feature_command_is_done h name d).2)
  poll-Returns (suc fuel) d e = ground (
    arith,
    laws.steady h name d,
    laws.sleeps 100 (api.vmb_feature_command_is_done h name d).2,
    poll-Returns fuel (api.sleep_for 100 (api.vmb_feature_command_is_done h name d).2),
  )

  -- A limit that one sleep outlasts: the first round reports a timeout, or the library's error.
  poll-NoValue :
      (fuel : ℕ) (d : api.Dev)
      → start ≤ api.now d
      → limit ≤ 100
      → NoValue (poll api h name start limit fuel d).0
  unfolding poll ◌>>=◌
  poll-NoValue zero d e f = tt
  poll-NoValue (suc fuel) d e f =
      ground
        (arith, laws.steady h name d, laws.sleeps 100 (api.vmb_feature_command_is_done h name d).2)

module _ (api : Api) (laws : ClockLaws api) where
  run_on-Returns :
      (name : String) (h : Handle) (limit : Option ℕ) (d : api.Dev)
      → Returns (run_on api name h limit d).0
  unfolding run_on ◌>>=◌
  run_on-Returns name h limit d = ground (
    arith,
    poll-Returns api laws h name (api.now (api.vmb_feature_command_run h name d).2)
        (timeout_or_default limit) (timeout_or_default limit / 100)
        (api.vmb_feature_command_run h name d).2,
  )

  run_on-NoValue :
      (name : String) (h : Handle) (limit : ℕ) (d : api.Dev)
      → limit ≤ 100
      → NoValue (run_on api name h (some limit) d).0
  unfolding run_on ◌>>=◌
  run_on-NoValue name h limit d e = ground (
    arith,
    poll-NoValue api laws h name (api.now (api.vmb_feature_command_run h name d).2) limit
        (rounds limit) (api.vmb_feature_command_run h name d).2,
  )

-- If the clock is steady and a sleep lasts as long as asked, feature_command_run returns, whatever
-- the device answers: its loop ends within `timeout / 100 + 1` rounds.
pub feature_command_run-Returns :
    (api : Api)
    → ClockLaws api
    → (c : Camera) (name : String) (limit : Option ℕ) (m : Module) (d : api.Dev)
    → Returns (feature_command_run api c name limit m d).0
unfolding feature_command_run
feature_command_run-Returns api laws c name limit m d =
    run_on-Returns api laws name (get_module_handle c m) limit d

-- If the clock is steady and a sleep lasts as long as asked, no command succeeds under a timeout of
-- 100 ms or less, also where the device reports it done at once.
pub short_timeout_fails :
    (api : Api)
    → ClockLaws api
    → (c : Camera) (name : String) (limit : ℕ) (m : Module) (d : api.Dev) → limit ≤ 100
    → NoValue (feature_command_run api c name (some limit) m d).0
unfolding feature_command_run
short_timeout_fails api laws c name limit m d =
    run_on-NoValue api laws name (get_module_handle c m) limit d
