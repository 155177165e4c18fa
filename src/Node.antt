-- ===== src/Node.antt =====
-- vimbax_camera_node.cpp: the node's state, how it reaches the camera, its own start and stop of the
-- stream, and what its services have in common. A handler runs under the node's locks, so one handler
-- is one step.
pub mod Services
pub mod Stream
pub mod Replies
pub mod Answers
pub mod Keeps
pub mod Handlers
pub mod Steps
pub mod Sessions
pub mod Subscribers
pub mod Connection
pub mod Status
pub mod Owners
pub mod Images
pub mod Start
pub mod Locks
pub mod Declared
use vimbax_ros2_driver.Common.{
  ℕ, String, Bool, true, false, Option, none, some, ℤ, Exit, value, error, aborted, Act,
  null_dereference, ◌==◌, if◌then◌else◌,
}
use vimbax_ros2_driver.Error.{ErrorMsg, no_error, to_error_msg, not_found, bad_parameter}
use vimbax_ros2_driver.Camera.{
  Camera, World, Module, system, interface, local_device, remote_device, stream,
}

-- vimbax_camera_msgs/FeatureModule: the numbers of the modules.
unfoldable pub map_module : ℕ → Option Module
map_module id =
    if id == 0
    then some remote_device
    else if id == 1
    then some system
    else if id == 2
    then some interface
    else if id == 3
    then some local_device
    else if id == 4
    then some stream
    else none

-- The members of VimbaXCameraNode that its handlers read and write.
pub record Node : Type 0 where
  pub camera : Option Camera
  pub is_available : Bool
  pub stream_stopped_by_service : Bool
  pub stream_restart_required : Bool
  pub last_frame_id : Option ℕ
  pub last_camera_id : String
  -- the static variable of on_camera_discovery_callback
  pub restart_pending : Bool
  -- the detached threads that are to reopen the camera
  pub reconnects : ℕ

pub record NodeWorld (D : Type 0) : Type 0 where
  pub node : Node
  pub dev : D

-- A response: its error, and the fields that the handler fills in, if it does.
pub record Response (A : Type 0) : Type 0 where
  pub error : ErrorMsg
  pub body : Option A

-- `response->set__error(error{code}.to_error_msg());`
abbrev pub refusal : {A : Type 0} → ℤ → Response A
refusal code = record { error = to_error_msg code; body = none }

-- The result of the camera, as the response.
abbrev pub answer : {A S : Type 0} → Exit A × S → Exit (Response A) × S
answer (value a, s) = (value (record { error = no_error; body = some a }), s)
answer (error e, s) = (value (refusal e), s)
answer (aborted x, s) = (aborted x, s)

module _ {D A : Type 0} where
  -- `camera_->method(…)` for a const method, and for one that changes the camera.
  unfoldable pub ask : (Camera → Act D A) → Act (NodeWorld D) A
  ask f w = elim w.node.camera [
    | none ↦ (aborted null_dereference, w)
    | some c ↦ let (r, d) = f c w.dev in (r, record w { dev = d })
  ]

  unfoldable pub tell : Act (World D) A → Act (NodeWorld D) A
  tell m w = elim w.node.camera [
    | none ↦ (aborted null_dereference, w)
    | some c ↦
        let (r, w') = m (record { camera = c; dev = w.dev }) in
        (r, record { node = record w.node { camera = some w'.camera }; dev = w'.dev })
  ]

  abbrev pub in_module :
      Option Module → (Camera → Module → Act D A) → Act (NodeWorld D) (Response A)
  in_module none f w = (value (refusal bad_parameter), w)
  in_module (some m) f w = answer (ask (λ c. f c m) w)

  -- The handler of a feature service, for the module with the given number.
  unfoldable pub feature_service : ℕ → (Camera → Module → Act D A) → Act (NodeWorld D) (Response A)
  unfolding map_module ask
  feature_service id f w =
      if w.node.is_available then in_module (map_module id) f w else (value (refusal not_found), w)
