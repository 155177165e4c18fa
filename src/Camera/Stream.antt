-- ===== src/Camera/Stream.antt =====
-- vimbax_camera.cpp: start_streaming, stop_streaming and the destructor. Each runs from the state that
-- the compare-and-exchange on `stream_state_` finds, on the thread that calls it. The processing
-- thread is the flags that start it and end it.
pub mod Outcomes
pub mod Wedged
pub mod Sessions
use vimbax_ros2_driver.Common.{
  ℕ, zero, suc, Bool, true, false, Option, none, some, List, [], ◌∷◌, ◌++◌, ℤ, Act, Result, ok, err,
  null_dereference, pure, fail, abort, gets, attempt, deref, guard, ◌>>=◌, ◌>>◌, if◌then◌else◌,
  replicate, int_to_size, int_eq,
}
use vimbax_ros2_driver.Error.{invalid_call, not_supported, not_found}
use vimbax_ros2_driver.Vmbc.{Api, Handle}
use vimbax_ros2_driver.Vmbc.Features
use vimbax_ros2_driver.Vmbc.Features.{call}
use vimbax_ros2_driver.Pixel.{is_valid_pixel_format}
use vimbax_ros2_driver.Camera.{
  Camera, Frame, World, StreamState, stopped, starting, active, stopping, Module, remote_device,
  has_feature, on_dev, update,
}
use vimbax_ros2_driver.Camera.Enums.{get_pixel_format}
use vimbax_ros2_driver.Camera.Command.{feature_command_run}
use vimbax_ros2_driver.Camera.Frames.{create}

-- `alignment_res ? *alignment_res : 1`
abbrev pub alignment_or_one : Result ℤ → ℕ
alignment_or_one (ok z) = int_to_size z
alignment_or_one (err e) = 1

-- `err == VmbErrorNotFound`
abbrev pub alive_of : ℤ → Bool
alive_of e = if int_eq e not_found then false else true

module _ (api : Api) where
  unfoldable pub is_alive : Camera → Act api.Dev Bool
  is_alive c d =
      let (e, info, d') = api.vmb_camera_info_query_by_handle c.camera_handle d in
      pure (alive_of e) d'

  unfoldable pub stream_alignment : Camera → Act api.Dev ℕ
  stream_alignment c = elim (has_feature c "StreamBufferAlignment" remote_device) [
    | true ↦ do
      res ←
          attempt (Features.feature_int_get api c.camera_info.stream_handle "StreamBufferAlignment")
      pure (alignment_or_one res)
    | false ↦ pure 1
  ]

  -- The loop over `frames_`: `done` are set, `left` are null. A frame is named by its place.
  unfoldable pub create_frames :
      ℕ → ℕ → ℕ → ℕ → List (Option Frame) → ℕ → Act (World api.Dev) (Unit {0})
  create_frames payload alignment on_frame i done zero = pure tt
  create_frames payload alignment on_frame i done (suc left) = do
    new_frame ← on_dev (λ c. create api c i payload alignment)
    let frame = record new_frame { callback = some on_frame }
    let done' = done ++ some frame ∷ []
    update (λ c. record c { frames = done' ++ replicate left none })
    create_frames payload alignment on_frame (suc i) done' left

  -- `for (auto const & frame : frames_) { frame->queue() … }`
  unfoldable pub queue_frames : List (Option Frame) → Act (World api.Dev) (Unit {0})
  queue_frames [] = pure tt
  queue_frames (none ∷ frames) = abort null_dereference
  queue_frames (some frame ∷ frames) = do
    on_dev (λ c. call (api.vmb_capture_frame_queue c.camera_handle frame.vmb_frame.context))
    queue_frames frames

  start_acquisition : Bool → Act (World api.Dev) (Unit {0})
  start_acquisition true =
      on_dev (λ c. feature_command_run api c "AcquisitionStart" none remote_device)
  start_acquisition false = pure tt

  -- From the allocation of the frames to the end, in the order of the source.
  unfoldable pub bring_up : ℕ → ℕ → Bool → Act (World api.Dev) (Unit {0})
  unfolding start_acquisition
  bring_up buffer_count on_frame acquisition = do
    update (λ c. record c { frames = replicate buffer_count none })
    payload ← on_dev (λ c. call (api.vmb_payload_size_get c.camera_handle))
    format_res ← attempt (on_dev (get_pixel_format api))
    format ← deref format_res
    guard (is_valid_pixel_format format) not_supported
    alignment ← on_dev stream_alignment
    create_frames payload alignment on_frame 0 [] buffer_count
    update (λ c. record c { frame_processing_enable = true; frame_processing_thread = true })
    on_dev (λ c. call (api.vmb_capture_start c.camera_handle))
    frames ← gets (λ w. w.camera.frames)
    queue_frames frames
    start_acquisition acquisition
    update (λ c. record c { stream_state = active })

  start_from : StreamState → ℕ → ℕ → Bool → Act (World api.Dev) (Unit {0})
  start_from stopped buffer_count on_frame acquisition = do
    update (λ c. record c { stream_state = starting })
    bring_up buffer_count on_frame acquisition
  start_from active buffer_count on_frame acquisition = pure tt
  start_from starting buffer_count on_frame acquisition = fail invalid_call
  start_from stopping buffer_count on_frame acquisition = fail invalid_call

  unfoldable pub start_streaming : ℕ → ℕ → Bool → Act (World api.Dev) (Unit {0})
  unfolding start_from
  start_streaming buffer_count on_frame acquisition w =
      start_from w.camera.stream_state buffer_count on_frame acquisition w

  stop_acquisition : Bool → Act (World api.Dev) (Unit {0})
  stop_acquisition true =
      on_dev (λ c. feature_command_run api c "AcquisitionStop" none remote_device)
  stop_acquisition false = pure tt

  -- Emptying the queue, and joining the thread, if there is one.
  abbrev pub end_processing : Camera → Camera
  end_processing c =
      if c.frame_processing_thread
      then record c {
        frame_processing_enable = false;
        frame_ready_queue = [];
        frame_processing_thread = false;
      }
      else c

  unfoldable pub tear_down : Act (World api.Dev) (Unit {0})
  unfolding stop_acquisition is_alive
  tear_down = do
    alive ← on_dev is_alive
    stop_acquisition alive
    on_dev (λ c. call (api.vmb_capture_end c.camera_handle))
    update end_processing
    on_dev (λ c. call (api.vmb_capture_queue_flush c.camera_handle))
    on_dev (λ c. call (api.vmb_frame_revoke_all c.camera_handle))
    update (λ c. record c { frames = []; stream_state = stopped })

  stop_from : StreamState → Act (World api.Dev) (Unit {0})
  stop_from active = do update (λ c. record c { stream_state = stopping }); tear_down
  stop_from stopped = pure tt
  stop_from starting = fail invalid_call
  stop_from stopping = fail invalid_call

  unfoldable pub stop_streaming : Act (World api.Dev) (Unit {0})
  unfolding stop_from
  stop_streaming w = stop_from w.camera.stream_state w

  shut_down : Bool → Act (World api.Dev) (Unit {0})
  shut_down true = do res ← attempt stop_streaming; pure tt
  shut_down false = update (λ c.
      if c.frame_processing_thread
      then record c { frame_processing_enable = false; frame_processing_thread = false }
      else c)

  close_camera : Handle → Act (World api.Dev) (Unit {0})
  close_camera zero = pure tt
  close_camera (suc h) = do
    res ← attempt (on_dev (λ c. call (api.vmb_camera_close (suc h))))
    update (λ c. record c { camera_handle = 0 })

  -- The destructor. A processing thread that it leaves running ends the program.
  unfoldable pub destroy : Act (World api.Dev) (Unit {0})
  unfolding shut_down close_camera
  destroy = do
    alive ← on_dev is_alive
    shut_down alive
    handle ← gets (λ w. w.camera.camera_handle)
    close_camera handle
