-- ===== src/Node/Services.antt =====
-- vimbax_camera_node.cpp: the feature services, one function for each, and all of them together.
use vimbax_ros2_driver.Common.{
  ℕ, zero, suc, String, Bool, Option, none, some, List, [], ◌∷◌, ℤ, pos, negsuc, Act, ◌>>=◌,
}
use vimbax_ros2_driver.Vmbc.{Api}
use vimbax_ros2_driver.Camera.{Camera, Module}
use vimbax_ros2_driver.Camera.Features
use vimbax_ros2_driver.Camera.Features.{FloatInfo}
use vimbax_ros2_driver.Camera.Enums
use vimbax_ros2_driver.Camera.Infos.{Info, feature_info_query_list}
use vimbax_ros2_driver.Camera.Command.{feature_command_run}
use vimbax_ros2_driver.Node.{NodeWorld, Response, feature_service}

-- `timeout > 0 ? std::optional{milliseconds{timeout}} : std::nullopt`
abbrev pub timeout_of : ℤ → Option ℕ
timeout_of (pos zero) = none
timeout_of (pos (suc n)) = some (suc n)
timeout_of (negsuc n) = none

module _ (api : Api) where
  -- A handler on the node and the library.
  abbrev pub Handler : Type 0 → Type 0
  Handler A = Act (NodeWorld api.Dev) (Response A)

  unfoldable pub int_get : ℕ → String → Handler ℤ
  int_get id name = feature_service id (λ c m. Features.feature_int_get api c name m)

  unfoldable pub int_set : ℕ → String → ℤ → Handler (Unit {0})
  int_set id name v = feature_service id (λ c m. Features.feature_int_set api c name v m)

  unfoldable pub int_info_get : ℕ → String → Handler (ℤ × ℤ × ℤ)
  int_info_get id name = feature_service id (λ c m. Features.feature_int_info_get api c name m)

  unfoldable pub float_get : ℕ → String → Handler api.Float
  float_get id name = feature_service id (λ c m. Features.feature_float_get api c name m)

  unfoldable pub float_set : ℕ → String → api.Float → Handler (Unit {0})
  float_set id name v = feature_service id (λ c m. Features.feature_float_set api c name v m)

  unfoldable pub float_info_get : ℕ → String → Handler (FloatInfo api.Float)
  float_info_get id name = feature_service id (λ c m. Features.feature_float_info_get api c name m)

  unfoldable pub string_get : ℕ → String → Handler String
  string_get id name = feature_service id (λ c m. Features.feature_string_get api c name m)

  unfoldable pub string_set : ℕ → String → String → Handler (Unit {0})
  string_set id name v = feature_service id (λ c m. Features.feature_string_set api c name v m)

  unfoldable pub string_info_get : ℕ → String → Handler ℕ
  string_info_get id name =
      feature_service id (λ c m. Features.feature_string_info_get api c name m)

  unfoldable pub bool_get : ℕ → String → Handler Bool
  bool_get id name = feature_service id (λ c m. Features.feature_bool_get api c name m)

  unfoldable pub bool_set : ℕ → String → Bool → Handler (Unit {0})
  bool_set id name v = feature_service id (λ c m. Features.feature_bool_set api c name v m)

  unfoldable pub command_is_done : ℕ → String → Handler Bool
  command_is_done id name =
      feature_service id (λ c m. Features.feature_command_is_done api c name m)

  -- With the parameter `command_feature_timeout`.
  unfoldable pub command_run : ℤ → ℕ → String → Handler (Unit {0})
  command_run timeout id name =
      feature_service id (λ c m. feature_command_run api c name (timeout_of timeout) m)

  unfoldable pub enum_get : ℕ → String → Handler String
  enum_get id name = feature_service id (λ c m. Enums.feature_enum_get api c name m)

  unfoldable pub enum_set : ℕ → String → String → Handler (Unit {0})
  enum_set id name v = feature_service id (λ c m. Enums.feature_enum_set api c name v m)

  unfoldable pub enum_info_get : ℕ → String → Handler (List String × List String)
  enum_info_get id name = feature_service id (λ c m. Enums.feature_enum_info_get api c name m)

  unfoldable pub enum_as_int_get : ℕ → String → String → Handler ℤ
  enum_as_int_get id name option =
      feature_service id (λ c m. Enums.feature_enum_as_int_get api c name option m)

  unfoldable pub enum_as_string_get : ℕ → String → ℤ → Handler String
  enum_as_string_get id name v =
      feature_service id (λ c m. Enums.feature_enum_as_string_get api c name v m)

  unfoldable pub raw_get : ℕ → String → Handler (List ℕ)
  raw_get id name = feature_service id (λ c m. Features.feature_raw_get api c name m)

  unfoldable pub raw_set : ℕ → String → List ℕ → Handler (Unit {0})
  raw_set id name buffer = feature_service id (λ c m. Features.feature_raw_set api c name buffer m)

  unfoldable pub raw_info_get : ℕ → String → Handler ℕ
  raw_info_get id name = feature_service id (λ c m. Features.feature_raw_info_get api c name m)

  unfoldable pub access_mode_get : ℕ → String → Handler (Bool × Bool)
  access_mode_get id name =
      feature_service id (λ c m. Features.feature_access_mode_get api c name m)

  -- An empty list asks for all the features of the module.
  abbrev pub names_or_all : List String → Camera → Module → Act api.Dev (List String)
  names_or_all [] c m = Features.features_list_get api c m
  names_or_all (name ∷ names) c m = vimbax_ros2_driver.Common.pure (name ∷ names)

  unfoldable pub query_infos : List String → Camera → Module → Act api.Dev (List Info)
  query_infos names c m = do found ← names_or_all names c m; feature_info_query_list api c found m

  unfoldable pub info_query : ℕ → List String → Handler (List Info)
  unfolding query_infos
  info_query id names = feature_service id (query_infos names)

  unfoldable pub list_get : ℕ → Handler (List String)
  list_get id = feature_service id (Features.features_list_get api)

-- A request to one of the services, with the number of its module behind the parameters of its own.
pub data Request (F : Type 0) : Type 0 where
  request_int_get request_int_info_get request_float_get request_float_info_get request_string_get
        request_string_info_get request_bool_get request_command_is_done request_enum_get
        request_enum_info_get request_raw_get request_raw_info_get request_access_mode_get :
      String → Request F
  request_int_set : String → ℤ → Request F
  request_float_set : String → F → Request F
  request_string_set : String → String → Request F
  request_bool_set : String → Bool → Request F
  request_command_run : ℤ → String → Request F
  request_enum_set : String → String → Request F
  request_enum_as_int_get : String → String → Request F
  request_enum_as_string_get : String → ℤ → Request F
  request_raw_set : String → List ℕ → Request F
  request_info_query : List String → Request F
  request_list_get : Request F

-- The fields of the response to a request.
abbrev pub Body : {F : Type 0} → Request F → Type 0
Body {F} (request_float_get name) = F
Body {F} (request_float_info_get name) = FloatInfo F
Body (request_int_get name) = ℤ
Body (request_int_info_get name) = ℤ × ℤ × ℤ
Body (request_string_get name) = String
Body (request_string_info_get name) = ℕ
Body (request_bool_get name) = Bool
Body (request_command_is_done name) = Bool
Body (request_enum_get name) = String
Body (request_enum_info_get name) = List String × List String
Body (request_raw_get name) = List ℕ
Body (request_raw_info_get name) = ℕ
Body (request_access_mode_get name) = Bool × Bool
Body (request_int_set name v) = Unit {0}
Body (request_float_set name v) = Unit {0}
Body (request_string_set name v) = Unit {0}
Body (request_bool_set name v) = Unit {0}
Body (request_command_run timeout name) = Unit {0}
Body (request_enum_set name v) = Unit {0}
Body (request_enum_as_int_get name option) = ℤ
Body (request_enum_as_string_get name v) = String
Body (request_raw_set name buffer) = Unit {0}
Body (request_info_query names) = List Info
Body request_list_get = List String

module _ (api : Api) where
  unfoldable pub handle : (r : Request api.Float) → ℕ → Handler api (Body r)
  unfolding int_get int_set int_info_get float_get float_set float_info_get string_get string_set
      string_info_get bool_get bool_set command_is_done command_run enum_get enum_set enum_info_get
      enum_as_int_get enum_as_string_get raw_get raw_set raw_info_get access_mode_get info_query
      list_get
  handle (request_int_get name) id = int_get api id name
  handle (request_int_set name v) id = int_set api id name v
  handle (request_int_info_get name) id = int_info_get api id name
  handle (request_float_get name) id = float_get api id name
  handle (request_float_set name v) id = float_set api id name v
  handle (request_float_info_get name) id = float_info_get api id name
  handle (request_string_get name) id = string_get api id name
  handle (request_string_set name v) id = string_set api id name v
  handle (request_string_info_get name) id = string_info_get api id name
  handle (request_bool_get name) id = bool_get api id name
  handle (request_bool_set name v) id = bool_set api id name v
  handle (request_command_is_done name) id = command_is_done api id name
  handle (request_command_run timeout name) id = command_run api timeout id name
  handle (request_enum_get name) id = enum_get api id name
  handle (request_enum_set name v) id = enum_set api id name v
  handle (request_enum_info_get name) id = enum_info_get api id name
  handle (request_enum_as_int_get name option) id = enum_as_int_get api id name option
  handle (request_enum_as_string_get name v) id = enum_as_string_get api id name v
  handle (request_raw_get name) id = raw_get api id name
  handle (request_raw_set name buffer) id = raw_set api id name buffer
  handle (request_raw_info_get name) id = raw_info_get api id name
  handle (request_access_mode_get name) id = access_mode_get api id name
  handle (request_info_query names) id = info_query api id names
  handle request_list_get id = list_get api id
