-- ===== src/Api/Server/Entry.antt =====
-- From a registration or a login to the streams, through the interceptors.
use rea_time_chat_g_rpc.Base.{
  ℕ, ◌<◌, ◌≡◌, ◌≢◌, sym, ap, ◌∙◌, Bool, true, false, Option, some, List, [], ◌∷◌, ◌++◌, arith, Text,
  codes, Result, ok, err, if◌then◌else◌,
}
use rea_time_chat_g_rpc.Errors.{Status}
use rea_time_chat_g_rpc.Normalize.{CaseTable, IsCaseTable, email, trim_space}
use rea_time_chat_g_rpc.Auth.{Claims, TokenLib, JwtManager, Bcrypt}
use rea_time_chat_g_rpc.Auth.Tokens.{IsTokenLib}
use rea_time_chat_g_rpc.RateLimit.{RateLib, LimiterStore, limit_key, allow, exceeded}
use rea_time_chat_g_rpc.Data.Models.{User}
use rea_time_chat_g_rpc.Data.Users.{UsersColl}
use rea_time_chat_g_rpc.Data.Users.Accounts.{IsUsersColl}
use rea_time_chat_g_rpc.Hub.{ConnectionHub}
use rea_time_chat_g_rpc.Api.Stores.{MessagesStore, users_store}
use rea_time_chat_g_rpc.Api.Requests.{
  RegisterRequest, RegisterResponse, LoginRequest, LoginResponse,
}
use rea_time_chat_g_rpc.Api.Interceptors.{Call, get_values, bearer_token, auth_stream_interceptor}
use rea_time_chat_g_rpc.Api.Interceptors.Access.{Carries-auth_stream, bearer_token-issued}
use rea_time_chat_g_rpc.Api.Handlers.Accounts.{Clock}
use rea_time_chat_g_rpc.Api.Handlers.Accounts.Sessions.{Opens, register_ok, login_ok}
use rea_time_chat_g_rpc.Api.Service as Service
use rea_time_chat_g_rpc.Api.Service.{
  StreamMethod, unary_full_method, stream_full_method, Implementation, unary_handler,
  register_handler, login_handler,
}
use rea_time_chat_g_rpc.Api.Service.Chain.{Moments, unary_chain, unary_call, streams_closed}
use rea_time_chat_g_rpc.Api.Server.{
  Server, new_server, register_method, login_method, serve_register, serve_login,
}

-- The metadata of a call with a token, which is not empty and has no space at its ends.
abbrev pub Bears : Call → Text → Type 0
Bears call s =
    (md : List (Text × List Text)) × (call.metadata ≡ some md)
    × (get_values (codes "authorization") md ≡ (codes "Bearer " ++ s) ∷ [])
    × (trim_space s ≡ s)
    × (s ≢ [])

-- An answer of a test that refuses otherwise.
chosen :
    {R V : Type 0} (out run : Result Status R × V) (decision : Bool) (refusal : Status) (v : V)
    (r : R)
    → out ≡ (if decision then run else (err refusal, v))
    → out.0 ≡ ok r
    → out ≡ run
chosen out run true refusal v r e f = e
chosen out run false refusal v r e f = absurd (ground arith)

module _ (t : CaseTable) (cases : IsCaseTable t) (lib : TokenLib) (verifies : Text → Text → Bool)
    (tokens : IsTokenLib lib verifies) (bcrypt : Bcrypt) {W S : Type 0} (users : UsersColl W)
    (docs : W → List User) (laws : IsUsersColl users docs) (j : JwtManager) (msgs : MessagesStore W)
    (hub : Option (ConnectionHub S)) {Limit Limiter : Type 0} (rates : RateLib Limit Limiter) where
  -- The server that `main` builds.
  abbrev pub server : Server W S
  server = new_server (users_store t users) msgs j hub

  answered :
      {A R : Type 0} (m : Service.UnaryMethod) (at : Moments) (peer_addr : Option Text)
      (get_email : A → Option Text) (srv : Implementation A R (LimiterStore Limit Limiter × W))
      (ctx : Call) (req : A) (s : LimiterStore Limit Limiter) (w : W) (r : R)
      → let out =
          unary_handler m srv ctx
            (ok req)
            (some (unary_chain t lib j rates at peer_addr get_email))
            (s, w) in
        out.0 ≡ ok r
        → (s' : LimiterStore Limit Limiter) × (out
            ≡ srv (record ctx { full_method = unary_full_method m }) req (s', w))
  answered m at peer_addr get_email srv ctx req s w r e =
      let key = limit_key (record {
        full_method = unary_full_method m;
        peer_addr = peer_addr;
        get_email = get_email req;
      }) in
      (
        (allow rates at.looked_up at.asked key s).1,
        chosen _ _ _ exceeded _ r
            (unary_call t lib j rates m at peer_addr get_email srv ctx req s w) e,
      )

  -- A stream that is called with the token of an account runs as this account.
  opened_stream :
      {E V : Type 0} (refuse : Status → E) (m : StreamMethod) (now : ℕ) (ctx : Call)
      (token user_id mail : Text) (handler : Call → V → E × V) (w : V)
      → Opens t cases lib verifies tokens bcrypt users docs laws j now token user_id mail
      → Bears ctx token
      → let call : Call = record ctx { full_method = stream_full_method m } in
        (c : Claims) × (c.user_id ≡ user_id)
        × (c.email ≡ mail)
        × (auth_stream_interceptor t lib j refuse now call handler w
            ≡ handler (record call { claims = some c }) w)
  opened_stream refuse m now ctx token user_id mail handler w (c, verified, id, same)
        (md, sent, header, clean, full) =
      let call : Call = record ctx { full_method = stream_full_method m } in
      (
        c,
        id,
        same,
        Carries-auth_stream t lib j refuse now call c handler w (streams_closed m) (
          token,
          ap bearer_token sent ∙ bearer_token-issued md token header clean full,
          verified,
        ),
      )

  -- With the documented behaviour of the database and the JWT library: when `Register` has answered a
  -- call, past the rate limiter and the authentication, then every stream of the service that is called
  -- with its token before the token expires runs, under the registered user's id and normalized address.
  pub registered_user_streams :
      (at : Moments) (clock : Clock) (peer_addr : Option Text) (ctx : Call) (req : RegisterRequest)
      (s : LimiterStore Limit Limiter) (w : W) (r : RegisterResponse)
      → (serve_register t lib bcrypt rates server at clock peer_addr ctx (ok req) (s, w)).0 ≡ ok r
      → {E V : Type 0} (refuse : Status → E) (m : StreamMethod) (now : ℕ) (later : Call)
        (handler : Call → V → E × V) (v : V)
      → now < lib.numeric_date r.expires_at
      → Bears later r.token
      → let call : Call = record later { full_method = stream_full_method m } in
        (c : Claims) × (c.user_id ≡ r.user_id)
        × (c.email ≡ email t req.email)
        × (auth_stream_interceptor t lib j refuse now call handler v
            ≡ handler (record call { claims = some c }) v)
  unfolding serve_register register_handler
  registered_user_streams at clock peer_addr ctx req s w r e refuse m now later handler v fresh
        bears =
      let (s', ran) =
        answered Service.register at peer_addr (λ q. some (q.email))
          (register_method t lib bcrypt rates server clock) ctx req s w r e in
      let (_, _, _, _, _, opens) =
        register_ok t cases lib verifies tokens bcrypt users docs laws j clock req w r now
          (sym (ap (λ x. x.0) ran) ∙ e) fresh in
      opened_stream refuse m now later r.token r.user_id (email t req.email) handler v opens bears

  -- The same of `Login`.
  pub logged_in_user_streams :
      (at : Moments) (clock : Clock) (peer_addr : Option Text) (ctx : Call) (req : LoginRequest)
      (s : LimiterStore Limit Limiter) (w : W) (r : LoginResponse)
      → (serve_login t lib bcrypt rates server at clock peer_addr ctx (ok req) (s, w)).0 ≡ ok r
      → {E V : Type 0} (refuse : Status → E) (m : StreamMethod) (now : ℕ) (later : Call)
        (handler : Call → V → E × V) (v : V)
      → now < lib.numeric_date r.expires_at
      → Bears later r.token
      → let call : Call = record later { full_method = stream_full_method m } in
        (c : Claims) × (c.user_id ≡ r.user_id)
        × (c.email ≡ email t req.email)
        × (auth_stream_interceptor t lib j refuse now call handler v
            ≡ handler (record call { claims = some c }) v)
  unfolding serve_login login_handler
  logged_in_user_streams at clock peer_addr ctx req s w r e refuse m now later handler v fresh
        bears =
      let (s', ran) =
        answered Service.login at peer_addr (λ q. some (q.email))
          (login_method t lib bcrypt rates server clock) ctx req s w r e in
      let (_, _, _, _, _, opens) =
        login_ok t cases lib verifies tokens bcrypt users docs laws j clock req w r now
          (sym (ap (λ x. x.0) ran) ∙ e) fresh in
      opened_stream refuse m now later r.token r.user_id (email t req.email) handler v opens bears
