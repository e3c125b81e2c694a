-- ===== src/Api/Server/Tests.antt =====
-- Bob registers, logs in, and opens a stream with either token.
use rea_time_chat_g_rpc.Base.{
  ℕ, false, ap, ◌≡◌, refl, Option, none, some, List, [], ◌∷◌, ◌++◌, arith, codes, text_discrete,
  ℕ_discrete, lookup, ok,
}
use rea_time_chat_g_rpc.Errors.{Status}
use rea_time_chat_g_rpc.Normalize.{email, trim_space}
use rea_time_chat_g_rpc.Auth.{
  Claims, new_jwt_manager, generate_token, hash_password, check_password,
}
use rea_time_chat_g_rpc.Auth.Samples.{toy, toy-IsTokenLib, verifies, bob_token}
use rea_time_chat_g_rpc.RateLimit.{LimiterStore, limit_key}
use rea_time_chat_g_rpc.RateLimit.Samples.{counting}
use rea_time_chat_g_rpc.Data.Models.{User}
use rea_time_chat_g_rpc.Data.Users.{create_user, get_user_by_email, new_user}
use rea_time_chat_g_rpc.Data.Samples.{accounts, accounts-IsUsersColl}
use rea_time_chat_g_rpc.Api.Stores.{MessagesStore, users_store}
use rea_time_chat_g_rpc.Errors.{eof}
use rea_time_chat_g_rpc.Base.{err}
use rea_time_chat_g_rpc.Api.Interceptors.{Call, get_values, auth_stream_interceptor}
use rea_time_chat_g_rpc.Api.Handlers.Accounts.{register, register_response, login, login_response}
use rea_time_chat_g_rpc.Api.Service as Service
use rea_time_chat_g_rpc.Api.Service.{
  chat_stream, list_chats, stream_full_method, unary_handler, unary_full_method, register_handler,
  login_handler,
}
use rea_time_chat_g_rpc.Api.Service.Chain.{Moments, unary_call}
use rea_time_chat_g_rpc.Api.Server.{
  Server, new_server, serve_register, serve_login, register_method, login_method,
}
use rea_time_chat_g_rpc.Api.Server.Entry.{Bears, registered_user_streams}
use rea_time_chat_g_rpc.Api.Samples.{plain, jwt, clock, sign_up, bob_user, answer, log_in, entered}
use rea_time_chat_g_rpc.Samples.{ascii, ascii-IsCaseTable, spaced_bob}

abbrev no_messages : MessagesStore (List User)
no_messages = record {
  save_message = λ from to text at now w. (err eof, w);
  get_recent_chats = λ mail n w. some (err eof);
  get_message_history = λ user1 user2 n w. err eof;
}

abbrev server : Server (List User) ℕ
server = new_server (users_store ascii accounts) no_messages jwt none

abbrev store : LimiterStore ℕ ℕ
store = record { limit = 60; burst = 3; clients = []; cleanup_interval = 60; stopped = false }

abbrev at : Moments
at = record { looked_up = 2; asked = 3; verified = 4 }

abbrev anonymous : Call
anonymous = record { full_method = []; metadata = none; claims = none }

abbrev with_token : Call
with_token = record {
  full_method = [];
  metadata = some ((codes "authorization", (codes "Bearer " ++ bob_token) ∷ []) ∷ []);
  claims = none;
}

with_token-Bears : Bears with_token bob_token
unfolding get_values trim_space lookup text_discrete
with_token-Bears =
    ((codes "authorization", (codes "Bearer " ++ bob_token) ∷ []) ∷ [], refl, refl, refl, λ e. cc)

abbrev stream : Call → List User → Option Status × List User
stream call w = (none, [])

program : Unit {0}
unfolding serve_register serve_login register_handler login_handler lookup limit_key text_discrete
    ℕ_discrete hash_password check_password register register_response login login_response
    create_user get_user_by_email new_user generate_token new_jwt_manager email
program = tt

registered :
    (serve_register ascii toy plain counting server at clock none anonymous
      (ok sign_up)
      (store, [])).0
    ≡ ok answer
unfolding program
registered =
    ap (λ x. x.0)
      (unary_call ascii toy jwt counting Service.register at none (λ r. some (r.email))
        (register_method ascii toy plain counting server clock) anonymous sign_up store [])

logged_in :
    (serve_login ascii toy plain counting server at clock none anonymous
      (ok log_in)
      (store, bob_user ∷ [])).0
    ≡ ok entered
unfolding program
logged_in =
    ap (λ x. x.0)
      (unary_call ascii toy jwt counting Service.login at none (λ r. some (r.email))
        (login_method ascii toy plain counting server clock) anonymous log_in store (bob_user ∷ []))

abbrev chat_call : Call
chat_call = record with_token { full_method = stream_full_method chat_stream }

registered_user_streams_example :
    (c : Claims) × (c.user_id ≡ codes "u")
    × (c.email ≡ email ascii spaced_bob)
    × (auth_stream_interceptor ascii toy jwt some 50 chat_call stream []
        ≡ stream (record chat_call { claims = some c }) [])
registered_user_streams_example =
    registered_user_streams ascii ascii-IsCaseTable toy verifies toy-IsTokenLib plain accounts
      (λ us. us) accounts-IsUsersColl jwt no_messages none counting at clock none anonymous sign_up
      store [] answer registered some chat_stream 50 with_token stream [] (omega arith)
      with_token-Bears
