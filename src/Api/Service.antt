-- ===== src/Api/Service.antt =====
-- proto/chat/v1/chat_grpc.pb.go: the methods of the service and the way from gRPC to the server. What
-- gRPC decodes from the wire, or the status of its failure, is an argument.
pub mod Chain
mod Tests
use rea_time_chat_g_rpc.Base.{
  Bool, true, false, Option, none, some, List, [], ◌∷◌, Text, codes, Result, ok, err,
}
use rea_time_chat_g_rpc.Errors.{Error, Status, unimplemented}
use rea_time_chat_g_rpc.Api.Interceptors.{Call}

pub data UnaryMethod : Type 0 where
  register login : UnaryMethod

pub data StreamMethod : Type 0 where
  list_chats get_history chat_stream : StreamMethod

-- The constants `ChatService_…_FullMethodName`.
pub unary_full_method : UnaryMethod → Text
unary_full_method register = codes "/chat.v1.ChatService/Register"
unary_full_method login = codes "/chat.v1.ChatService/Login"

pub stream_full_method : StreamMethod → Text
stream_full_method list_chats = codes "/chat.v1.ChatService/ListChats"
stream_full_method get_history = codes "/chat.v1.ChatService/GetHistory"
stream_full_method chat_stream = codes "/chat.v1.ChatService/ChatStream"

-- `grpc.ServiceDesc`: the streams with `ServerStreams` and `ClientStreams`.
pub record ServiceDesc : Type 0 where
  pub service_name : Text
  pub methods : List (Text × UnaryMethod)
  pub streams : List (Text × StreamMethod × Bool × Bool)

pub service_desc : ServiceDesc
service_desc = record {
  service_name = codes "chat.v1.ChatService";
  methods = (codes "Register", register) ∷ (codes "Login", login) ∷ [];
  streams =
      (codes "ListChats", list_chats, true, false)
      ∷ (codes "GetHistory", get_history, true, false)
      ∷ (codes "ChatStream", chat_stream, true, true)
      ∷ [];
}

-- A method of the server, and `grpc.UnaryServerInterceptor`; `A` is the type of the requests, `R` that
-- of the responses, `W` the world.
abbrev pub Implementation : Type 0 → Type 0 → Type 0 → Type 0
Implementation A R W = Call → A → W → Result Status R × W

abbrev pub Interceptor : Type 0 → Type 0 → Type 0 → Type 0
Interceptor A R W = Call → A → Implementation A R W → W → Result Status R × W

module _ {A R W : Type 0} where
  -- What both unary handlers do; `info.FullMethod` becomes the method of the call.
  pub unary_handler :
      UnaryMethod
      → Implementation A R W
      → Call
      → Result Status A
      → Option (Interceptor A R W)
      → W
      → Result Status R × W
  unary_handler m srv ctx (err e) interceptor w = (err e, w)
  unary_handler m srv ctx (ok req) none w = srv ctx req w
  unary_handler m srv ctx (ok req) (some interceptor) w =
      interceptor (record ctx { full_method = unary_full_method m }) req srv w

  unfoldable pub register_handler :
      Implementation A R W
      → Call
      → Result Status A
      → Option (Interceptor A R W)
      → W
      → Result Status R × W
  register_handler = unary_handler register

  unfoldable pub login_handler :
      Implementation A R W
      → Call
      → Result Status A
      → Option (Interceptor A R W)
      → W
      → Result Status R × W
  login_handler = unary_handler login

-- `E` is how a stream's method may end, and `refuse` the end that returns a status.
module _ {A E W : Type 0} (refuse : Status → E) where
  -- What the handlers of the streams with one request do.
  abbrev pub one_request : (Call → A → W → E × W) → Call → (W → Result Status A × W) → W → E × W
  one_request srv ctx recv_msg w =
      let (result, w') = recv_msg w in elim result [ err e ↦ (refuse e, w') | ok m ↦ srv ctx m w' ]

  pub list_chats_handler : (Call → A → W → E × W) → Call → (W → Result Status A × W) → W → E × W
  list_chats_handler = one_request

  unfoldable pub get_history_handler :
      (Call → A → W → E × W) → Call → (W → Result Status A × W) → W → E × W
  get_history_handler = one_request

unfoldable pub chat_stream_handler : {E W : Type 0} → (Call → W → E × W) → Call → W → E × W
chat_stream_handler srv ctx w = srv ctx w

-- `UnimplementedChatServiceServer`
pub unimplemented_unary : {R : Type 0} → UnaryMethod → Result Status R
unimplemented_unary register = err (record {
  code = unimplemented;
  format = codes "method Register not implemented";
  cause = none;
})
unimplemented_unary login =
    err
      (record { code = unimplemented; format = codes "method Login not implemented"; cause = none })

pub unimplemented_stream : StreamMethod → Option Status
unimplemented_stream list_chats = some (record {
  code = unimplemented;
  format = codes "method ListChats not implemented";
  cause = none;
})
unimplemented_stream get_history = some (record {
  code = unimplemented;
  format = codes "method GetHistory not implemented";
  cause = none;
})
unimplemented_stream chat_stream = some (record {
  code = unimplemented;
  format = codes "method ChatStream not implemented";
  cause = none;
})
