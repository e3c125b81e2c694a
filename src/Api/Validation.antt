-- ===== src/Api/Validation.antt =====
-- proto/chat/v1/chat.pb.validate.go: the generated checks of the messages. A message is `none` where it
-- is a nil pointer. What a timestamp offers of the two methods is the parameter `Embedded`.
pub mod Reports
mod Tests
use rea_time_chat_g_rpc.Base.{
  ℕ, Bool, true, false, Option, none, some, List, [], ◌∷◌, ◌++◌, Text, codes, if◌then◌else◌,
}
use rea_time_chat_g_rpc.Errors.{Error}
use rea_time_chat_g_rpc.Wire.{ChatStreamResponse}
use rea_time_chat_g_rpc.Api.Requests.{
  RegisterRequest, RegisterResponse, LoginRequest, LoginResponse, ListChatsRequest,
  ListChatsResponse, GetHistoryRequest, GetHistoryResponse, ChatStreamRequest,
}

-- The methods of an embedded timestamp, called on a pointer that is `none` where it is nil. A method is `none`
-- where the type has none of this name, as is so of both for the type `Timestamp` of the protobuf library.
pub record Embedded : Type 0 where
  pub validate_all : Option (Option ℕ → Option Error)
  pub validate : Option (Option ℕ → Option Error)

-- `RegisterRequestValidationError` and its like
pub record ValidationError : Type 0 where
  pub message : Text
  pub field : Text
  pub reason : Text
  pub cause : Option Error
  pub key : Bool

-- What `validate` returns: nil, one error, or a `…MultiError`.
pub data Verdict : Type 0 where
  valid : Verdict
  first : ValidationError → Verdict
  multi : List ValidationError → Verdict

-- The method `Error` of a validation error, where `print` prints the cause.
pub error_text : (Error → Text) → ValidationError → Text
error_text print e =
    let cause : Text = elim e.cause [ none ↦ [] | some c ↦ codes " | caused by: " ++ print c ] in
    let key = if e.key then codes "key for " else [] in
    codes "invalid "
    ++ (key ++ (e.message ++ (codes "." ++ (e.field ++ (codes ": " ++ (e.reason ++ cause))))))

-- `strings.Join(msgs, "; ")`
pub multi_error_text : (Error → Text) → List ValidationError → Text
multi_error_text print [] = []
multi_error_text print (e ∷ []) = error_text print e
multi_error_text print (e ∷ f ∷ es) =
    error_text print e ++ (codes "; " ++ multi_error_text print (f ∷ es))

-- `if len(errors) > 0 { return …MultiError(errors) }`
abbrev pub conclude : List ValidationError → Verdict
conclude [] = valid
conclude (e ∷ es) = multi (e ∷ es)

-- The body of `validate` for a message without rules.
abbrev pub without_rules : {A : Type 0} → Option A → Bool → Verdict
without_rules none all = valid
without_rules (some m) all = conclude []

pub register_request_validate : Option RegisterRequest → Bool → Verdict
register_request_validate = without_rules

pub login_request_validate : Option LoginRequest → Bool → Verdict
login_request_validate = without_rules

pub list_chats_request_validate : Option ListChatsRequest → Bool → Verdict
list_chats_request_validate = without_rules

pub get_history_request_validate : Option GetHistoryRequest → Bool → Verdict
get_history_request_validate = without_rules

pub chat_stream_request_validate : Option ChatStreamRequest → Bool → Verdict
chat_stream_request_validate = without_rules

abbrev pub embedded_error : Text → Text → Error → ValidationError
embedded_error message field e = record {
  message = message;
  field = field;
  reason = codes "embedded message failed validation";
  cause = some e;
  key = false;
}

-- The errors of one field, from what its method returned.
abbrev pub collect : Text → Text → Option Error → List ValidationError
collect message field none = []
collect message field (some e) = embedded_error message field e ∷ []

-- The error of one field, where the first one ends the check.
abbrev pub stop_at : Text → Text → Option Error → Verdict
stop_at message field none = conclude []
stop_at message field (some e) = first (embedded_error message field e)

-- The type switch, under `all`.
pub check_all : Embedded → Text → Text → Option ℕ → List ValidationError
check_all lib message field at = elim lib.validate_all [
  | some f ↦ collect message field (f at)
  | none ↦ elim lib.validate [ some f ↦ collect message field (f at) | none ↦ [] ]
]

-- The type assertion, otherwise.
pub check_first : Embedded → Text → Text → Option ℕ → Verdict
check_first lib message field at = elim lib.validate [
  | some f ↦ stop_at message field (f at)
  | none ↦ conclude []
]

-- The body of `validate` for a message with one embedded timestamp, which may be nil.
pub with_timestamp :
    {A : Type 0} → Embedded → Text → Text → (A → Option ℕ) → Option A → Bool → Verdict
with_timestamp lib message field at none all = valid
with_timestamp lib message field at (some m) all =
    if all
    then conclude (check_all lib message field (at m))
    else check_first lib message field (at m)

-- The responses of the server have all their timestamps set.
module _ (lib : Embedded) where
  pub register_response_validate : Option RegisterResponse → Bool → Verdict
  register_response_validate =
      with_timestamp lib (codes "RegisterResponse") (codes "ExpiresAt") (λ m. some m.expires_at)

  pub login_response_validate : Option LoginResponse → Bool → Verdict
  login_response_validate =
      with_timestamp lib (codes "LoginResponse") (codes "ExpiresAt") (λ m. some m.expires_at)

  pub list_chats_response_validate : Option ListChatsResponse → Bool → Verdict
  list_chats_response_validate =
      with_timestamp lib (codes "ListChatsResponse") (codes "LastMessageAt")
        (λ m. some m.last_message_at)

  pub get_history_response_validate : Option GetHistoryResponse → Bool → Verdict
  get_history_response_validate =
      with_timestamp lib (codes "GetHistoryResponse") (codes "SentAt") (λ m. some m.sent_at)

  pub chat_stream_response_validate : Option ChatStreamResponse → Bool → Verdict
  chat_stream_response_validate =
      with_timestamp lib (codes "ChatStreamResponse") (codes "SentAt") (λ m. some m.sent_at)

-- A pointer to a message of the service
pub data ServiceMessage : Type 0 where
  register_request : Option RegisterRequest → ServiceMessage
  register_response : Option RegisterResponse → ServiceMessage
  login_request : Option LoginRequest → ServiceMessage
  login_response : Option LoginResponse → ServiceMessage
  list_chats_request : Option ListChatsRequest → ServiceMessage
  list_chats_response : Option ListChatsResponse → ServiceMessage
  get_history_request : Option GetHistoryRequest → ServiceMessage
  get_history_response : Option GetHistoryResponse → ServiceMessage
  chat_stream_request : Option ChatStreamRequest → ServiceMessage
  chat_stream_response : Option ChatStreamResponse → ServiceMessage

-- The method `Validate` of the message, or under `true` its method `ValidateAll`
pub validate : Embedded → ServiceMessage → Bool → Verdict
validate lib (register_request m) all = register_request_validate m all
validate lib (register_response m) all = register_response_validate lib m all
validate lib (login_request m) all = login_request_validate m all
validate lib (login_response m) all = login_response_validate lib m all
validate lib (list_chats_request m) all = list_chats_request_validate m all
validate lib (list_chats_response m) all = list_chats_response_validate lib m all
validate lib (get_history_request m) all = get_history_request_validate m all
validate lib (get_history_response m) all = get_history_response_validate lib m all
validate lib (chat_stream_request m) all = chat_stream_request_validate m all
validate lib (chat_stream_response m) all = chat_stream_response_validate lib m all
