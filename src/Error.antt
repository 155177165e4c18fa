-- ===== src/Error.antt =====
-- VmbCommonTypes.h: the error codes; vimbax_camera_helper.cpp: their texts; result.hpp: the
-- message that a service answers with.
pub mod Names
use vimbax_ros2_driver.Common.{
  String, ◌≡◌, Bool, List, [], ◌∷◌, ℤ, pos, negsuc, int_eq, if◌then◌else◌, Exit, Result, ok, err,
  value, error,
}

abbrev pub success : ℤ
success = pos 0

abbrev pub not_found : ℤ
not_found = negsuc 2

abbrev pub bad_parameter : ℤ
bad_parameter = negsuc 6

abbrev pub invalid_value : ℤ
invalid_value = negsuc 10

abbrev pub timeout : ℤ
timeout = negsuc 11

abbrev pub invalid_call : ℤ
invalid_call = negsuc 14

abbrev pub not_supported : ℤ
not_supported = negsuc 17

abbrev pub unknown : ℤ
unknown = negsuc 27

abbrev pub not_available : ℤ
not_available = negsuc 29

abbrev pub invalid_address : ℤ
invalid_address = negsuc 31

-- The `switch` of `vmb_error_to_string`, one row for each case.
abbrev pub error_texts : List (ℤ × String)
error_texts =
    (pos 0, "VmbErrorSuccess")
    ∷ (negsuc 0, "VmbErrorInternalFault")
    ∷ (negsuc 1, "VmbErrorApiNotStarted")
    ∷ (negsuc 2, "VmbErrorNotFound")
    ∷ (negsuc 3, "VmbErrorBadHandle")
    ∷ (negsuc 4, "VmbErrorDeviceNotOpen")
    ∷ (negsuc 5, "VmbErrorInvalidAccess")
    ∷ (negsuc 6, "VmbErrorBadParameter")
    ∷ (negsuc 7, "VmbErrorStructSize")
    ∷ (negsuc 8, "VmbErrorMoreData")
    ∷ (negsuc 9, "VmbErrorWrongType")
    ∷ (negsuc 10, "VmbErrorInvalidValue")
    ∷ (negsuc 11, "VmbErrorTimeout")
    ∷ (negsuc 12, "VmbErrorOther")
    ∷ (negsuc 13, "VmbErrorResources")
    ∷ (negsuc 14, "VmbErrorInvalidCall")
    ∷ (negsuc 15, "VmbErrorNoTL")
    ∷ (negsuc 16, "VmbErrorNotImplemented")
    ∷ (negsuc 17, "VmbErrorNotSupported")
    ∷ (negsuc 18, "VmbErrorIncomplete")
    ∷ (negsuc 19, "VmbErrorIO")
    ∷ (negsuc 20, "VmbErrorValidValueSetNotPresent")
    ∷ (negsuc 21, "VmbErrorGenTLUnspecified")
    ∷ (negsuc 22, "VmbErrorUnspecified")
    ∷ (negsuc 23, "VmbErrorBusy")
    ∷ (negsuc 24, "VmbErrorNoData")
    ∷ (negsuc 25, "VmbErrorParsingChunkData")
    ∷ (negsuc 26, "VmbErrorInUse")
    ∷ (negsuc 27, "VmbErrorUnknown")
    ∷ (negsuc 28, "VmbErrorXml")
    ∷ (negsuc 29, "VmbErrorNotAvailable")
    ∷ (negsuc 30, "VmbErrorNotInitialized")
    ∷ (negsuc 31, "VmbErrorInvalidAddress")
    ∷ (negsuc 32, "VmbErrorAlready")
    ∷ (negsuc 33, "VmbErrorNoChunkData")
    ∷ (negsuc 34, "VmbErrorUserCallbackException")
    ∷ (negsuc 35, "VmbErrorFeaturesUnavailable")
    ∷ (negsuc 36, "VmbErrorTLNotFound")
    ∷ (negsuc 38, "VmbErrorAmbiguous")
    ∷ (negsuc 39, "VmbErrorRetriesExceeded")
    ∷ (negsuc 40, "VmbErrorInsufficientBufferCount")
    ∷ []

-- The first case with the code, or the `default`.
unfoldable pub text_in : List (ℤ × String) → ℤ → String
text_in [] code = "VmbErrorCustom"
text_in ((c, text) ∷ rest) code = if int_eq code c then text else text_in rest code

unfoldable pub vmb_error_to_string : ℤ → String
unfolding text_in
vmb_error_to_string code = text_in error_texts code

-- The message type `vimbax_camera_msgs/Error`.
pub record ErrorMsg : Type 0 where
  pub code : ℤ
  pub text : String

-- `Error{}`: what a response holds where no error was set.
abbrev pub no_error : ErrorMsg
no_error = record { code = pos 0; text = "" }

unfoldable pub to_error_msg : ℤ → ErrorMsg
to_error_msg code = record { code = code; text = vmb_error_to_string code }

-- `err != VmbErrorSuccess` is the negation of this test.
abbrev pub is_success : ℤ → Bool
is_success e = int_eq e success

-- `if (err != VmbErrorSuccess) { return error{err}; } return value;`
abbrev pub checked : {A : Type 0} → ℤ → A → Exit A
checked e a = if is_success e then value a else error e
