-- ===== src/Node/Connection/Overlap.antt =====
-- Two threads that open the camera again.
use vimbax_ros2_driver.Common.{
  ℕ, suc, ◌≡◌, refl, true, Option, none, some, Exit, value, aborted, null_dereference, Act,
  continue, ◌>>=◌, gets, pure, error, ap, sym, ◌∙◌,
}
use mathlib.Core.Path.{subst}
use vimbax_ros2_driver.Vmbc.{Api}
use vimbax_ros2_driver.Camera.{Camera, Module}
use vimbax_ros2_driver.Camera.Open.{open_by_name}
use vimbax_ros2_driver.Node.{Node, NodeWorld, feature_service, map_module, ask}
use vimbax_ros2_driver.Node.Services.{
  Request, handle, request_int_get, request_int_set, request_int_info_get, request_float_get,
  request_float_set, request_float_info_get, request_string_get, request_string_set,
  request_string_info_get, request_bool_get, request_bool_set, request_command_is_done,
  request_command_run, request_enum_get, request_enum_set, request_enum_info_get,
  request_enum_as_int_get, request_enum_as_string_get, request_raw_get, request_raw_set,
  request_raw_info_get, request_access_mode_get, request_info_query, request_list_get,
}
use vimbax_ros2_driver.Camera.Settings.{FileSystem}
use vimbax_ros2_driver.Node.Connection.{
  OpenParameters, on_library, restart_if, set_camera, set_up, initialize_camera, reconnect,
  name_to_open,
}
use vimbax_ros2_driver.Node.Steps.{Host, reconnect_thread, run_event, run_thread}

module _ {D A : Type 0} where
  null_pointer :
      (id : ℕ) (m : Module) (f : Camera → Module → Act D A) (w : NodeWorld D)
      → map_module id ≡ some m
      → w.node.is_available ≡ true
      → w.node.camera ≡ none
      → (feature_service id f w).0 ≡ aborted null_dereference
  unfolding feature_service
  null_pointer id m f w e a n = simp (a, e, n, ask)

module _ (api : Api) where
  handle-null :
      (r : Request api.Float) (id : ℕ) (m : Module) (w : NodeWorld api.Dev)
      → map_module id ≡ some m
      → w.node.is_available ≡ true
      → w.node.camera ≡ none
      → (handle api r id w).0 ≡ aborted null_dereference
  unfolding handle
  handle-null (request_int_get name) id m w i a n = null_pointer id m _ w i a n
  handle-null (request_int_set name v) id m w i a n = null_pointer id m _ w i a n
  handle-null (request_int_info_get name) id m w i a n = null_pointer id m _ w i a n
  handle-null (request_float_get name) id m w i a n = null_pointer id m _ w i a n
  handle-null (request_float_set name v) id m w i a n = null_pointer id m _ w i a n
  handle-null (request_float_info_get name) id m w i a n = null_pointer id m _ w i a n
  handle-null (request_string_get name) id m w i a n = null_pointer id m _ w i a n
  handle-null (request_string_set name v) id m w i a n = null_pointer id m _ w i a n
  handle-null (request_string_info_get name) id m w i a n = null_pointer id m _ w i a n
  handle-null (request_bool_get name) id m w i a n = null_pointer id m _ w i a n
  handle-null (request_bool_set name v) id m w i a n = null_pointer id m _ w i a n
  handle-null (request_command_is_done name) id m w i a n = null_pointer id m _ w i a n
  handle-null (request_command_run timeout name) id m w i a n = null_pointer id m _ w i a n
  handle-null (request_enum_get name) id m w i a n = null_pointer id m _ w i a n
  handle-null (request_enum_set name v) id m w i a n = null_pointer id m _ w i a n
  handle-null (request_enum_info_get name) id m w i a n = null_pointer id m _ w i a n
  handle-null (request_enum_as_int_get name option) id m w i a n = null_pointer id m _ w i a n
  handle-null (request_enum_as_string_get name v) id m w i a n = null_pointer id m _ w i a n
  handle-null (request_raw_get name) id m w i a n = null_pointer id m _ w i a n
  handle-null (request_raw_set name buffer) id m w i a n = null_pointer id m _ w i a n
  handle-null (request_raw_info_get name) id m w i a n = null_pointer id m _ w i a n
  handle-null (request_access_mode_get name) id m w i a n = null_pointer id m _ w i a n
  handle-null (request_info_query names) id m w i a n = null_pointer id m _ w i a n
  handle-null request_list_get id m w i a n = null_pointer id m _ w i a n

module _ (api : Api) (fs : FileSystem api.Dev) (parameters : OpenParameters) where
  -- Closing the old camera ends the thread's work where no new one is open.
  closed_only :
      (r : Exit (Unit {0}) × NodeWorld api.Dev)
      → (continue
          (continue r (λ u. set_up api fs parameters none))
          (λ done. restart_if api fs parameters done)).1
        ≡ r.1
  unfolding set_up pure
  closed_only (value u, w) = refl
  closed_only (error e, w) = refl
  closed_only (aborted x, w) = refl

  -- What the thread does after the opening, which gave `r`.
  abbrev after_open : Exit (Option Camera) × api.Dev → Node → NodeWorld api.Dev
  after_open r n =
      (continue
        (continue (r.0, record { node = n; dev = r.1 })
          (λ opened. set_camera api opened >>= λ u. set_up api fs parameters opened))
        (λ done. restart_if api fs parameters done)).1

  after_open-none :
      (r : Exit (Option Camera) × api.Dev) (n : Node)
      → r.0 ≡ value none
      → (after_open r n).node ≡ record n { camera = none }
  unfolding set_camera ◌>>=◌
  after_open-none r n e =
      subst (λ x. (after_open (x, r.1) n).node ≡ record n { camera = none }) (sym e)
        (ap (λ w. w.node) (closed_only (set_camera api none (record { node = n; dev = r.1 }))))

-- While the camera is available, let another thread open the camera again, and let the library refuse
-- that, as it does where the camera is open already. Then the node loses the camera that it has, is
-- available still, and a request to a feature service for any module dereferences the null pointer.
pub reconnect_thread-loses_camera :
    (api : Api) (host : Host api) (w : NodeWorld api.Dev) (k : ℕ)
    → w.node.reconnects ≡ suc k
    → w.node.is_available ≡ true
    → (open_by_name api (name_to_open api host.fs host.camera w.node) w.dev).0 ≡ value none
    → (r : Request api.Float) (id : ℕ) (m : Module) → map_module id ≡ some m
    → ((run_event api host reconnect_thread w).node.camera ≡ none)
      × ((run_event api host reconnect_thread w).node.is_available ≡ true)
      × ((handle api r id (run_event api host reconnect_thread w)).0 ≡ aborted null_dereference)
unfolding run_event run_thread reconnect initialize_camera on_library gets ◌>>=◌
reconnect_thread-loses_camera api host w k e a o r id m i =
    let n = record w.node { reconnects = k } in
    let lost =
      after_open-none api host.fs host.camera
        (open_by_name api (name_to_open api host.fs host.camera w.node) w.dev) n o in
    let camera = ap (λ n. n.camera) lost in
    let available = ap (λ n. n.is_available) lost ∙ a in
    simp e (camera, available, handle-null api r id m _ i available camera)
