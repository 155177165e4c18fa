-- ===== src/Tests/Streams.antt =====
-- Runs of the streaming functions of vimbax_camera.cpp.
use vimbax_ros2_driver.Common.{
  ℕ, List, ◌++◌, ◌≡◌, refl, true, none, some, [], ◌∷◌, value, error, arith, ◌>>=◌,
}
use vimbax_ros2_driver.Error.{invalid_call}
use vimbax_ros2_driver.Camera.{remote_device}
use vimbax_ros2_driver.Camera.Stream.{
  start_streaming, stop_streaming, bring_up, stream_alignment, create_frames, queue_frames,
  tear_down,
}
use vimbax_ros2_driver.Camera.Command.{feature_command_run}
use vimbax_ros2_driver.Camera.Command.Ends.{
  Returns, NoValue, feature_command_run-Returns, short_timeout_fails,
}
use vimbax_ros2_driver.Camera.Stream.Outcomes.{
  Streaming, Starting, Stopping, Idle, start_streaming-Streaming, stop_streaming-Idle,
}
use vimbax_ros2_driver.Camera.Queue.{
  Places, FrameEvent, complete, take_next, finish, frame_run, hand_back,
}
use vimbax_ros2_driver.Camera.Queue.Order.{InOrder, taken_by, frame_run-reaches}
use vimbax_ros2_driver.Tests.{
  working, odd_format, stuck, idle_camera, idle_world, busy_world, busy_Streaming,
  working-ClockLaws, idle-Session,
}
use vimbax_ros2_driver.Vmbc.Features as Vmb
use vimbax_ros2_driver.Camera.Features
use vimbax_ros2_driver.Camera.{update, on_dev, has_feature}
use vimbax_ros2_driver.Camera.Enums.{get_pixel_format}
use vimbax_ros2_driver.Camera.Frames.{create}
use vimbax_ros2_driver.Pixel.{is_valid_pixel_format}
use vimbax_ros2_driver.Camera.Triple.{Leaves}
use vimbax_ros2_driver.Camera.Stream.Wedged.{
  start, stop, run_calls, failed_start_wedges, failed_stop_wedges,
}
use vimbax_ros2_driver.Camera.Stream.Sessions.{Session, run_calls-Session}

start_streaming-Streaming_example :
    Leaves Starting (Streaming 2 7) (start_streaming working 2 7 true idle_world)
start_streaming-Streaming_example = start_streaming-Streaming working 2 7 true idle_world refl

stop_streaming-Idle_example : Leaves Stopping (Idle []) (stop_streaming working busy_world)
stop_streaming-Idle_example = stop_streaming-Idle working 1 7 busy_world busy_Streaming

-- The start succeeds, and both frames are there.
start_works : (start_streaming working 2 7 true idle_world).0 ≡ value tt
unfolding start_streaming ◌>>=◌ update bring_up on_dev get_pixel_format is_valid_pixel_format
    stream_alignment has_feature create_frames create Features.feature_int_get Vmb.feature_int_get
    queue_frames feature_command_run
start_works = refl

failed_start_wedges_example :
    run_calls odd_format
      (stop ∷ start 1 7 true ∷ [])
      (start_streaming odd_format 2 7 true idle_world).1
    ≡ (
      error invalid_call ∷ error invalid_call ∷ [],
      (start_streaming odd_format 2 7 true idle_world).1,
    )
unfolding start_streaming ◌>>=◌ update bring_up on_dev get_pixel_format is_valid_pixel_format
failed_start_wedges_example =
    failed_start_wedges odd_format 2 7 true idle_world refl tt (stop ∷ start 1 7 true ∷ [])

stuck_after_stop :
    run_calls stuck (stop ∷ start 1 7 true ∷ []) (stop_streaming stuck busy_world).1
    ≡ (error invalid_call ∷ error invalid_call ∷ [], (stop_streaming stuck busy_world).1)
unfolding stop_streaming ◌>>=◌ update tear_down on_dev feature_command_run
stuck_after_stop =
    failed_stop_wedges stuck 1 7 busy_world busy_Streaming tt (stop ∷ start 1 7 true ∷ [])

Session-after_calls : Session (run_calls working (start 2 7 true ∷ stop ∷ []) idle_world).1.camera
Session-after_calls = run_calls-Session working (start 2 7 true ∷ stop ∷ []) idle_world idle-Session

feature_command_run-Returns_example :
    Returns (feature_command_run working idle_camera "AcquisitionStart" none remote_device 0).0
feature_command_run-Returns_example =
    feature_command_run-Returns working working-ClockLaws idle_camera "AcquisitionStart" none
      remote_device 0

short_timeout_fails_example :
    NoValue
      (feature_command_run working idle_camera "AcquisitionStart" (some 100) remote_device 0).0
short_timeout_fails_example =
    short_timeout_fails working working-ClockLaws idle_camera "AcquisitionStart" 100 remote_device 0
      (omega arith)

-- Two frames are ready, and a third comes while the thread handles them.
abbrev two_ready : Places
two_ready = record { queued = 0 ∷ []; ready = 2 ∷ 1 ∷ []; busy = none; lost = [] }

abbrev both_taken : List FrameEvent
both_taken = take_next ∷ complete 0 ∷ finish true ∷ take_next ∷ []

abbrev then_left : Places
then_left = record { queued = 2 ∷ []; ready = 0 ∷ []; busy = some 1; lost = [] }

both_run : frame_run both_taken two_ready ≡ some then_left
unfolding frame_run hand_back
both_run = refl

frame_run-reaches_example :
    ((zs : List ℕ) × (taken_by both_taken two_ready ≡ (2 ∷ []) ++ 1 ∷ zs))
    × InOrder both_taken two_ready then_left
frame_run-reaches_example =
    frame_run-reaches both_taken two_ready then_left (2 ∷ []) [] 1 both_run refl (omega arith)
