-- ===== src/Lib.antt =====
-- The ROS 2 driver for Vimba X cameras. A node (vimbax_camera/src/vimbax_camera_node.cpp) offers
-- services and an image topic; it owns a camera (vimbax_camera/src/vimbax_camera.cpp), which calls the
-- vendor's library VmbC through VmbCAPI (vimbax_camera/src/loader/vmbc_api.cpp). A publisher of events
-- (vimbax_camera_events/src/event_publisher_base.cpp) counts subscriptions and calls the node back.
--
-- Common holds the shared names, and Common/Exec the monad of the bodies that return a result<T>
-- (vimbax_camera/include/vimbax_camera/result.hpp): a body maps a state to a value, an error code or an
-- abort, and to the state that it leaves. An abort is a C++ exception, a null dereference or a loop that
-- outran its fuel.
--
-- Vmbc is the library: a record of functions over a state of its own, as VmbC.h declares them, with the
-- steady clock. What a theorem supposes of it is among its hypotheses: for the polling loop the two laws
-- of Camera/Command/Ends (a sleep lasts as long as asked, and a call does not turn the clock back), for
-- the trigger selector those of Camera/Information/Selector (a set that succeeds leaves the value, a
-- read changes nothing), for the search for an address those of Camera/Open/Network (what the selector
-- of an interface selects). Vmbc/Features has the wrappers of VmbCAPI, Vmbc/Honest the logic of bodies
-- that do not throw. Error has the codes and vmb_error_to_string
-- (vimbax_camera/src/vimbax_camera_helper.cpp).
--
-- Camera is the class VimbaXCamera: its members and module handles; Camera/Features, Camera/Enums and
-- Camera/Infos access features; Camera/Command is feature_command_run, whose loop has `timeout / 100 +
-- 1` rounds of fuel, which is enough since a round sleeps 100 ms; Camera/Frames is Frame::create and
-- timestamp_to_ns, and Camera/Frames/Image on_frame_ready with transform; Camera/Stream is
-- start_streaming, stop_streaming and the destructor; Camera/Queue is the way of the frames between the
-- library, the queue of ready frames and the thread that handles them; Camera/Threads is the same at the
-- grain of single shared accesses, for the processing thread, the thread that stops or destroys the
-- camera, and the callback of the library, under every interleaving; Camera/Construct is the
-- constructor, Camera/Open the function open with the search for an address; Camera/Settings,
-- Camera/Information and Camera/Invalidation are settings_load and settings_save, camera_info_get, and
-- the callbacks of invalidated features with get_event_meta_data. std::filesystem and std::to_string are
-- records of functions. Camera/Triple is the logic in which their outcomes are proved. A method that
-- does not change the camera takes it as an argument; one that does runs on a World, the camera and the
-- library.
--
-- Pixel has the tables of pixel formats, encodings and shifts of vimbax_camera.cpp, Shift the functions
-- left_shift16 of vimbax_camera_helper.cpp, and Address the two address parsers of vimbax_camera.cpp
-- with the texts that camera_info_get prints. Loader is split_string of vmbc_api.cpp; its loop has one
-- round of fuel for each byte and one more, and each round passes a byte. Loader/Instance is
-- load_vmbc_library, get_instance and the destructor of VmbCAPI, on a record that stands for the
-- operating system: the environment, std::filesystem, dlopen, dlsym and dlclose.
--
-- Node is VimbaXCameraNode: Node/Services its feature services, Node/Status those for settings and
-- status and the callback on parameters, Node/Stream the stream services and the loop of the thread that
-- follows the subscribers, Node/Owners what it does for the publishers of events, and Node/Connection
-- initialize_camera, the camera observer, the discovery callback and the destructor; Node/Images is the
-- frame callback of start_streaming, with the stamp and the count of missing frames, and Node/Start is
-- initialize. A handler runs under the locks of the node, so it is one step, and an interleaving is a
-- sequence of steps (Node/Steps); the thread that opens the camera again is a step of its own. A round
-- of the thread that follows the subscribers holds no lock as a whole: it is a step for itself where
-- nothing interrupts it, and its starts, its stops and its writes are steps of their own as well.
-- Node/Keeps and Node/Handlers prove once that the handlers keep every invariant that the calls on the
-- camera keep. Node/Locks has the locks themselves, camera_mutex_ and stream_state_mutex_, one lock or
-- unlock at a time; what the standard leaves open, whether a shared mutex lets readers in while a writer
-- waits, is a parameter. Node/Declared is initialize_parameters with the changes of parameters between
-- those steps, which no lock keeps apart from a start: a read of the parameters and the step that uses
-- it, and the check of a change and its storing, are steps of their own. What ROS tests of a new value
-- is a parameter; it makes one change at a time. Events is EventPublisherBase, and Events/Clients the
-- clients of a publisher (vimbax_camera_events/include/vimbax_camera_events/event_subscriber_base.hpp),
-- whose requests, responses and last requests interleave with its timer.
--
-- Tests has a small library with concrete cameras, and runs of the functions on them.
--
-- Not modelled: the declaration of services, the examples and the launch files. VmbCaptureEnd is taken
-- to return when the last callback has, as VmbC.h documents it, where a theorem says so. The parameters
-- of the node are taken to be declared when they are read. Numbers of type int64_t are unbounded where
-- no overflow is at stake; size_t wraps around in Frame::create and in the counts of Events, and a loop
-- of left_shift16 whose 32-bit counter cannot reach its end gives nothing. Log output is left out, but
-- for the warnings of missing frames.
pub mod Common
pub mod Error
pub mod Vmbc
pub mod Shift
pub mod Address
pub mod Pixel
pub mod Camera
pub mod Loader
pub mod Events
pub mod Node
pub mod Tests
