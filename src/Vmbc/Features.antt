-- ===== src/Vmbc/Features.antt =====
-- loader/vmbc_api.cpp: the methods of VmbCAPI that wrap feature access, and the list of interfaces.
use vimbax_ros2_driver.Common.{ℕ, zero, suc, String, ℤ, Act, pure, ◌>>=◌}
use vimbax_ros2_driver.Error.{checked}
use vimbax_ros2_driver.Vmbc.{Api, Handle, Call}

-- A call whose error is returned: `if (err != VmbErrorSuccess) { return error{err}; }`.
abbrev pub call : {D A : Type 0} → Call D A → Act D A
call m d = let (e, a, d') = m d in (checked e a, d')

-- `value.assign(buf, n)`
unfoldable pub assign : String → ℕ → String
assign s zero = String.[]
assign String.[] (suc n) = String.[]
assign (String.◌∷◌ c s) (suc n) = String.◌∷◌ c (assign s n)

module _ (api : Api) where
  open api use {
    Dev, vmb_feature_int_get, vmb_feature_int_set, vmb_feature_int_range_query,
    vmb_feature_int_increment_query, vmb_feature_string_size, vmb_feature_string_get,
    vmb_interfaces_list,
  }

  unfoldable pub feature_int_get : Handle → String → Act Dev ℤ
  feature_int_get handle name = call (vmb_feature_int_get handle name)

  unfoldable pub feature_int_set : Handle → String → ℤ → Act Dev (Unit {0})
  feature_int_set handle name v = call (vmb_feature_int_set handle name v)

  -- The first call asks for the size, the second fills a buffer of that size.
  unfoldable pub feature_string_get : Handle → String → Act Dev String
  unfolding assign
  feature_string_get handle name = do
    size ← call (vmb_feature_string_size handle name)
    filled ← call (vmb_feature_string_get handle name size)
    pure (assign filled.0 filled.1)

  -- min, max, increment
  unfoldable pub feature_int_info_get : Handle → String → Act Dev (ℤ × ℤ × ℤ)
  feature_int_info_get handle name = do
    range ← call (vmb_feature_int_range_query handle name)
    increment ← call (vmb_feature_int_increment_query handle name)
    pure (range.0, range.1, increment)
