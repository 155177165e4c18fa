-- ===== src/Loader/Instance.antt =====
-- vmbc_api.cpp: load_vmbc_library, VmbCAPI::get_instance and the destructor, with the loader of
-- library_loader_unix.cpp. The operating system is a parameter; a path is the list of its bytes.
pub mod Outcomes
use vimbax_ros2_driver.Common.{
  ℕ, String, Bool, true, false, Option, none, some, List, [], ◌∷◌, ◌++◌, ℤ, Exit, value, error,
  aborted, Act, pure, gets, modify, abort, filesystem_error, dangling_call, ◌>>=◌, ◌>>◌, ◌||◌,
  str_eq, codes, if◌then◌else◌,
}
use vimbax_ros2_driver.Error.{is_success}
use vimbax_ros2_driver.Loader.{split_string}

abbrev pub FilePath : Type 0
FilePath = List ℕ

-- std::filesystem, getenv, dlopen, dlsym and dlclose, and the two functions of VmbC that are called
-- here, on a state of their own. `canonical` gives none where it throws.
pub record System : Type 1 where
  pub Os : Type 0
  pub getenv : Os → String → Option FilePath
  pub exists : Os → FilePath → Bool
  pub canonical : Os → FilePath → Option FilePath
  -- `a / b`
  pub join : FilePath → FilePath → FilePath
  pub dlopen : FilePath → Os → Option ℕ × Os
  pub dlsym : ℕ → String → Os → Bool
  pub dlclose : ℕ → Os → Os
  pub vmb_startup : FilePath → Os → ℤ × Os
  pub vmb_shutdown : Os → Os

-- The system, and whether `instance_` has not expired.
pub record Process (Os : Type 0) : Type 0 where
  pub os : Os
  pub live : Bool

-- What get_instance loads, in its order.
abbrev pub symbols_before : List String
symbols_before =
    "VmbCameraClose" ∷ "VmbCameraInfoQuery" ∷ "VmbCameraInfoQueryByHandle" ∷ "VmbCameraOpen"
    ∷ "VmbCamerasList" ∷ "VmbCaptureEnd" ∷ "VmbCaptureFrameQueue" ∷ "VmbCaptureFrameWait"
    ∷ "VmbCaptureQueueFlush" ∷ "VmbCaptureStart" ∷ "VmbChunkDataAccess" ∷ "VmbFeatureAccessQuery"
    ∷ "VmbFeatureBoolGet" ∷ "VmbFeatureBoolSet" ∷ "VmbFeatureCommandIsDone" ∷ "VmbFeatureCommandRun"
    ∷ "VmbFeatureEnumAsInt" ∷ "VmbFeatureEnumAsString" ∷ "VmbFeatureEnumEntryGet"
    ∷ "VmbFeatureEnumGet" ∷ "VmbFeatureEnumIsAvailable" ∷ "VmbFeatureEnumRangeQuery"
    ∷ "VmbFeatureEnumSet" ∷ "VmbFeatureFloatGet" ∷ "VmbFeatureFloatIncrementQuery"
    ∷ "VmbFeatureFloatRangeQuery" ∷ "VmbFeatureFloatSet" ∷ "VmbFeatureInfoQuery"
    ∷ "VmbFeatureIntGet" ∷ "VmbFeatureIntIncrementQuery" ∷ "VmbFeatureIntRangeQuery"
    ∷ "VmbFeatureIntSet" ∷ "VmbFeatureIntValidValueSetQuery" ∷ "VmbFeatureInvalidationRegister"
    ∷ "VmbFeatureInvalidationUnregister" ∷ "VmbFeatureListSelected" ∷ "VmbFeatureRawGet"
    ∷ "VmbFeatureRawLengthQuery" ∷ "VmbFeatureRawSet" ∷ "VmbFeatureStringGet"
    ∷ "VmbFeatureStringMaxlengthQuery" ∷ "VmbFeatureStringSet" ∷ "VmbFeaturesList"
    ∷ "VmbFrameAnnounce" ∷ "VmbFrameRevoke" ∷ "VmbFrameRevokeAll" ∷ "VmbInterfacesList"
    ∷ "VmbMemoryRead" ∷ "VmbMemoryWrite" ∷ "VmbPayloadSizeGet" ∷ "VmbSettingsLoad"
    ∷ "VmbSettingsSave" ∷ []

abbrev pub symbols_from_shutdown : List String
symbols_from_shutdown =
    "VmbShutdown" ∷ "VmbStartup" ∷ "VmbTransportLayersList" ∷ "VmbVersionQuery" ∷ []

module _ (system : System) where
  open system use {Os}

  abbrev pub text_or_empty : Option FilePath → FilePath
  text_or_empty (some v) = v
  text_or_empty none = []

  unfoldable pub getenv_safe : String → Act Os FilePath
  getenv_safe name = gets (λ s. text_or_empty (system.getenv s name))

  abbrev pub split : FilePath → Act Os (List FilePath)
  split text s = (split_string b':' text, s)

  abbrev pub or_throw_path : Option FilePath → Act Os FilePath
  or_throw_path (some p) = pure p
  or_throw_path none = abort filesystem_error

  -- LibraryLoaderUnix::build_library_name and open, LoadedLibraryUnix::resolve_symbol, and its
  -- destructor. A library is the handle that dlopen gives.
  abbrev pub build_library_name : FilePath → FilePath
  build_library_name name = codes "lib" ++ (name ++ codes ".so")

  abbrev pub open_library : FilePath → Act Os (Option ℕ)
  open_library name s = let (handle, s') = system.dlopen name s in (Exit.value handle, s')

  abbrev pub resolve_symbol : ℕ → String → Act Os Bool
  resolve_symbol dl_handle name = gets (system.dlsym dl_handle name)

  abbrev pub close_library : ℕ → Act Os (Unit {0})
  close_library dl_handle = modify (system.dlclose dl_handle)

  abbrev pub lib_name : FilePath
  lib_name = build_library_name (codes "VmbC")

  abbrev pub api_lib : FilePath → FilePath
  api_lib part = system.join (system.join part (codes "api")) (codes "lib")

  -- The library in a directory, if it is there.
  unfoldable pub library_in : FilePath → Act Os (Option FilePath)
  library_in directory = do
    dir ← (λ s. or_throw_path (system.canonical s directory) s)
    let path = system.join dir lib_name
    there ← gets (λ s. system.exists s path)
    pure (if there then some path else none)

  abbrev pub library_if : Bool → FilePath → Act Os (Option FilePath)
  library_if true directory = library_in directory
  library_if false directory = pure none

  abbrev pub or_rest : Option FilePath → Act Os (Option FilePath) → Act Os (Option FilePath)
  or_rest (some path) m = pure (some path)
  or_rest none m = m

  -- The loop over the parts of VIMBA_X_HOME: it tests that the part exists.
  unfoldable pub by_home : List FilePath → Act Os (Option FilePath)
  unfolding library_in
  by_home [] = pure none
  by_home (part ∷ parts) = do
    there ← gets (λ s. system.exists s part)
    found ← library_if there (api_lib part)
    or_rest found (by_home parts)

  -- The loop over the parts of GENICAM_GENTL64_PATH: it tests that the directory exists.
  unfoldable pub by_gentl : List FilePath → Act Os (Option FilePath)
  unfolding library_in
  by_gentl [] = pure none
  by_gentl (part ∷ parts) = do
    let lib_dir = api_lib (system.join part (codes ".."))
    there ← gets (λ s. system.exists s lib_dir)
    found ← library_if there lib_dir
    or_rest found (by_gentl parts)

  abbrev pub or_lib_name : Option FilePath → FilePath
  or_lib_name (some path) = path
  or_lib_name none = lib_name

  unfoldable pub load_vmbc_library : Act Os (Option ℕ)
  unfolding getenv_safe by_home by_gentl
  load_vmbc_library = do
    home ← getenv_safe "VIMBA_X_HOME"
    home_parts ← split home
    by_home_path ← by_home home_parts
    path ← or_rest by_home_path (do
      gentl ← getenv_safe "GENICAM_GENTL64_PATH"
      gentl_parts ← split gentl
      by_gentl gentl_parts)
    open_library (or_lib_name path)

  -- The LOAD_FUNC lines: whether all symbols are there, and whether VmbShutdown was loaded.
  unfoldable pub load_functions : ℕ → List String → Bool → Act Os (Bool × Bool)
  load_functions library [] shutdown_loaded = pure (true, shutdown_loaded)
  load_functions library (name ∷ names) shutdown_loaded =
      let rest = load_functions library names (str_eq name "VmbShutdown" || shutdown_loaded) in
      do there ← resolve_symbol library name; if there then rest else pure (false, shutdown_loaded)

  -- The destructor of the instance, when its library is open.
  abbrev pub shut_down_if : Bool → Act Os (Unit {0})
  shut_down_if true = modify system.vmb_shutdown
  shut_down_if false = pure tt

  -- The same after `library`, which the function declares after `instance`, has been closed.
  abbrev pub shut_down_closed : Bool → Act Os (Unit {0})
  shut_down_closed true = abort dangling_call
  shut_down_closed false = pure tt

  abbrev pub give_up_if : Bool → ℕ → Bool → Act Os Bool
  give_up_if true library shutdown_loaded = pure true
  give_up_if false library shutdown_loaded = do
    shut_down_if shutdown_loaded
    close_library library
    pure false

  -- Once all symbols are there: the library belongs to the instance. An empty path is a null pointer.
  unfoldable pub start_up : FilePath → ℕ → Bool → Act Os Bool
  start_up tl_search_path library shutdown_loaded = do
    res ← (λ s. let (e, s') = system.vmb_startup tl_search_path s in (Exit.value e, s'))
    give_up_if (is_success res) library shutdown_loaded

  -- A symbol is missing: the library goes first, and the instance after it.
  unfoldable pub leave : ℕ → Bool → Act Os Bool
  leave library shutdown_loaded = do
    close_library library
    shut_down_closed shutdown_loaded
    pure false

  abbrev pub load_instance : FilePath → Option ℕ → Act Os Bool
  load_instance tl_search_path none = pure false
  load_instance tl_search_path (some library) = do
    loaded ← load_functions library (symbols_before ++ symbols_from_shutdown) false
    if loaded.0 then start_up tl_search_path library loaded.1 else leave library loaded.1

  unfoldable pub create_instance : FilePath → Act Os Bool
  unfolding load_vmbc_library load_functions start_up leave
  create_instance tl_search_path = do
    library ← load_vmbc_library
    load_instance tl_search_path library

  -- What the process is after an attempt to make an instance.
  abbrev pub after : Exit Bool × Os → Exit Bool × Process Os
  after (value made, s) = (value made, record { os = s; live = made })
  after (error e, s) = (error e, record { os = s; live = false })
  after (aborted x, s) = (aborted x, record { os = s; live = false })

  -- VmbCAPI::get_instance with a loader: whether it gives an instance.
  unfoldable pub get_instance : FilePath → Act (Process Os) Bool
  unfolding create_instance
  get_instance tl_search_path p =
      if p.live then (value true, p) else after (create_instance tl_search_path p.os)
