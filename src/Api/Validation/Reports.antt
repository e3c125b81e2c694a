-- ===== src/Api/Validation/Reports.antt =====
-- proto/chat/v1/chat.pb.validate.go: the methods of the error types that belong to each message.
use rea_time_chat_g_rpc.Base.{Bool, Option, List, ◌++◌, Text, codes}
use rea_time_chat_g_rpc.Errors.{Error}
use rea_time_chat_g_rpc.Api.Validation.{ValidationError, error_text, multi_error_text}

-- The interface of a `…ValidationError`, with `Error`.
pub record ErrorMethods : Type 0 where
  pub field : Text
  pub reason : Text
  pub cause : Option Error
  pub key : Bool
  pub error_name : Text
  pub error : Text

-- The methods of a `…MultiError`.
pub record MultiErrorMethods : Type 0 where
  pub all_errors : List ValidationError
  pub error : Text

-- The methods for a message of this name; `print` prints a cause.
abbrev pub methods_of : Text → (Error → Text) → Text → Text → Option Error → Bool → ErrorMethods
methods_of name print field reason cause key = record {
  field = field;
  reason = reason;
  cause = cause;
  key = key;
  error_name = name ++ codes "ValidationError";
  error =
      error_text print
        (record { message = name; field = field; reason = reason; cause = cause; key = key });
}

abbrev pub multi_methods_of : (Error → Text) → List ValidationError → MultiErrorMethods
multi_methods_of print errors = record {
  all_errors = errors;
  error = multi_error_text print errors;
}

module _ (print : Error → Text) where
  pub register_request_validation_error : Text → Text → Option Error → Bool → ErrorMethods
  register_request_validation_error = methods_of (codes "RegisterRequest") print

  pub register_request_multi_error : List ValidationError → MultiErrorMethods
  register_request_multi_error = multi_methods_of print

  pub login_request_validation_error : Text → Text → Option Error → Bool → ErrorMethods
  login_request_validation_error = methods_of (codes "LoginRequest") print

  pub login_request_multi_error : List ValidationError → MultiErrorMethods
  login_request_multi_error = multi_methods_of print

  pub list_chats_request_validation_error : Text → Text → Option Error → Bool → ErrorMethods
  list_chats_request_validation_error = methods_of (codes "ListChatsRequest") print

  pub list_chats_request_multi_error : List ValidationError → MultiErrorMethods
  list_chats_request_multi_error = multi_methods_of print

  pub get_history_request_validation_error : Text → Text → Option Error → Bool → ErrorMethods
  get_history_request_validation_error = methods_of (codes "GetHistoryRequest") print

  pub get_history_request_multi_error : List ValidationError → MultiErrorMethods
  get_history_request_multi_error = multi_methods_of print

  pub chat_stream_request_validation_error : Text → Text → Option Error → Bool → ErrorMethods
  chat_stream_request_validation_error = methods_of (codes "ChatStreamRequest") print

  pub chat_stream_request_multi_error : List ValidationError → MultiErrorMethods
  chat_stream_request_multi_error = multi_methods_of print

  pub register_response_validation_error : Text → Text → Option Error → Bool → ErrorMethods
  register_response_validation_error = methods_of (codes "RegisterResponse") print

  pub register_response_multi_error : List ValidationError → MultiErrorMethods
  register_response_multi_error = multi_methods_of print

  pub login_response_validation_error : Text → Text → Option Error → Bool → ErrorMethods
  login_response_validation_error = methods_of (codes "LoginResponse") print

  pub login_response_multi_error : List ValidationError → MultiErrorMethods
  login_response_multi_error = multi_methods_of print

  pub list_chats_response_validation_error : Text → Text → Option Error → Bool → ErrorMethods
  list_chats_response_validation_error = methods_of (codes "ListChatsResponse") print

  pub list_chats_response_multi_error : List ValidationError → MultiErrorMethods
  list_chats_response_multi_error = multi_methods_of print

  pub get_history_response_validation_error : Text → Text → Option Error → Bool → ErrorMethods
  get_history_response_validation_error = methods_of (codes "GetHistoryResponse") print

  pub get_history_response_multi_error : List ValidationError → MultiErrorMethods
  get_history_response_multi_error = multi_methods_of print

  pub chat_stream_response_validation_error : Text → Text → Option Error → Bool → ErrorMethods
  chat_stream_response_validation_error = methods_of (codes "ChatStreamResponse") print

  pub chat_stream_response_multi_error : List ValidationError → MultiErrorMethods
  chat_stream_response_multi_error = multi_methods_of print
