-- ===== src/Api/Server.antt =====
-- cmd/api/server.go: the server over its stores, the token manager and the hub, and its methods behind
-- the interceptors that cmd/api/main.go chains.
pub mod Entry
pub mod Streams
pub mod Exchange
mod Tests
mod Conversations
mod Letters
use rea_time_chat_g_rpc.Base.{ℕ, Option, some, List, Text, Result}
use rea_time_chat_g_rpc.Errors.{Status}
use rea_time_chat_g_rpc.Normalize.{CaseTable}
use rea_time_chat_g_rpc.Auth.{TokenLib, JwtManager, Bcrypt}
use rea_time_chat_g_rpc.RateLimit.{RateLib, LimiterStore}
use rea_time_chat_g_rpc.Hub.{ConnectionHub}
use rea_time_chat_g_rpc.Api.Stores.{UsersStore, MessagesStore}
use rea_time_chat_g_rpc.Wire.{StreamSender}
use rea_time_chat_g_rpc.Hub.{Conns}
use rea_time_chat_g_rpc.Api.Requests.{
  RegisterRequest, RegisterResponse, LoginRequest, LoginResponse, ListChatsRequest,
  ListChatsResponse, GetHistoryRequest, GetHistoryResponse,
}
use rea_time_chat_g_rpc.Api.Interceptors.{Call, auth_stream_interceptor}
use rea_time_chat_g_rpc.Api.Handlers.Streaming.{
  ServerStream, Ending, returned, list_chats, get_history,
}
use rea_time_chat_g_rpc.Api.Handlers.Chat.{Recv, chat_stream}
use rea_time_chat_g_rpc.Api.Service as Service
use rea_time_chat_g_rpc.Api.Handlers.Accounts as Accounts
use rea_time_chat_g_rpc.Api.Handlers.Accounts.{Clock}
use rea_time_chat_g_rpc.Api.Service.{
  ServiceDesc, service_desc, Implementation, register_handler, login_handler, stream_full_method,
  list_chats_handler, get_history_handler, chat_stream_handler,
}
use rea_time_chat_g_rpc.Api.Service.Chain.{Moments, unary_chain}

pub record Server (W S : Type 0) : Type 0 where
  pub users : UsersStore W
  pub msgs : MessagesStore W
  pub auth : JwtManager
  pub hub : Option (ConnectionHub S)

-- `grpc.ServiceRegistrar`, on the gRPC servers `G`.
pub record ServiceRegistrar (G W S : Type 0) : Type 0 where
  pub register_service : ServiceDesc → Server W S → G → G

module _ {W S : Type 0} where
  abbrev pub new_server :
      UsersStore W → MessagesStore W → JwtManager → Option (ConnectionHub S) → Server W S
  new_server users msgs auth_mgr hub = record {
    users = users;
    msgs = msgs;
    auth = auth_mgr;
    hub = hub;
  }

  -- `RegisterChatServiceServer`; the server embeds `UnimplementedChatServiceServer` by value.
  pub register_chat_service_server : {G : Type 0} → ServiceRegistrar G W S → G → Server W S → G
  register_chat_service_server registrar s srv = registrar.register_service service_desc srv s

  pub register_service : {G : Type 0} → ServiceRegistrar G W S → G → Server W S → G
  register_service registrar s srv = register_chat_service_server registrar s srv

module _ (t : CaseTable) (tokens : TokenLib) (bcrypt : Bcrypt) {Limit Limiter : Type 0}
    (lib : RateLib Limit Limiter) {W S : Type 0} (srv : Server W S) where
  -- The methods of the server, which leave the store of the limiter as it is.
  abbrev pub register_method :
      Clock → Implementation RegisterRequest RegisterResponse (LimiterStore Limit Limiter × W)
  register_method clock call req (s, w) =
      let (r, w') = Accounts.register t tokens bcrypt srv.users srv.auth clock req w in (r, (s, w'))

  abbrev pub login_method :
      Clock → Implementation LoginRequest LoginResponse (LimiterStore Limit Limiter × W)
  login_method clock call req (s, w) =
      (Accounts.login t tokens bcrypt srv.users srv.auth clock req w, (s, w))

  -- A call of each, behind the chain of the two interceptors; `peer_addr` is the address of the peer.
  pub serve_register :
      Moments
      → Clock
      → Option Text
      → Call
      → Result Status RegisterRequest
      → LimiterStore Limit Limiter × W
      → Result Status RegisterResponse × (LimiterStore Limit Limiter × W)
  serve_register at clock peer_addr ctx req =
      register_handler (register_method clock) ctx req
        (some (unary_chain t tokens srv.auth lib at peer_addr (λ r. some (r.email))))

  pub serve_login :
      Moments
      → Clock
      → Option Text
      → Call
      → Result Status LoginRequest
      → LimiterStore Limit Limiter × W
      → Result Status LoginResponse × (LimiterStore Limit Limiter × W)
  serve_login at clock peer_addr ctx req =
      login_handler (login_method clock) ctx req
        (some (unary_chain t tokens srv.auth lib at peer_addr (λ r. some (r.email))))

-- A stream's handler that returns a status.
abbrev pub refused : Status → Ending
refused s = returned (some s)

module _ (t : CaseTable) (tokens : TokenLib) (hex : ℕ → Text) {W S : Type 0}
    (srv : Server W S) where
  -- A call of each stream, behind the interceptor of the streams. `recv` reads the request, and `now` is the
  -- reading of the clock by the interceptor.
  pub serve_list_chats :
      ServerStream ListChatsResponse W
      → ℕ
      → Call
      → (W → Result Status ListChatsRequest × W)
      → W
      → Ending × W
  serve_list_chats stream now ctx recv =
      auth_stream_interceptor t tokens srv.auth refused now
        (record ctx { full_method = stream_full_method Service.list_chats })
        (λ call. list_chats_handler refused (list_chats hex srv.msgs stream) call recv)

  pub serve_get_history :
      ServerStream GetHistoryResponse W
      → ℕ
      → Call
      → (W → Result Status GetHistoryRequest × W)
      → W
      → Ending × W
  serve_get_history stream now ctx recv =
      auth_stream_interceptor t tokens srv.auth refused now
        (record ctx { full_method = stream_full_method Service.get_history })
        (λ call. get_history_handler refused (get_history hex srv.msgs stream) call recv)

  -- `rs` is what `Recv` yields; the handler works on the hub of the server and the world, and waits for
  -- more where its end is `none`.
  pub serve_chat_stream :
      StreamSender S W
      → (Conns S → Conns S)
      → S
      → List Recv
      → ℕ
      → Call
      → Option (ConnectionHub S) × W
      → Option (Option Status) × (Option (ConnectionHub S) × W)
  serve_chat_stream net order stream rs now ctx =
      auth_stream_interceptor t tokens srv.auth (λ s. some (some s)) now
        (record ctx { full_method = stream_full_method Service.chat_stream })
        (chat_stream_handler (λ call (hub, w).
          let (end, hub', w') = chat_stream hex srv.users srv.msgs net order call stream rs hub w in
          (end, (hub', w'))))
