-- ===== src/Api/Service/Chain.antt =====
-- The interceptors in front of the service, chained as cmd/api/main.go chains them.
use rea_time_chat_g_rpc.Base.{
  ℕ, ◌≡◌, refl, ◌⊎◌, Bool, true, Option, some, List, [], ◌∷◌, arith, Text, codes, text_discrete,
  lookup, false, if◌then◌else◌, ok, err,
}
use rea_time_chat_g_rpc.Errors.{Status, unauthenticated}
use rea_time_chat_g_rpc.Normalize.{CaseTable}
use rea_time_chat_g_rpc.Auth.{Claims, TokenLib, JwtManager}
use rea_time_chat_g_rpc.RateLimit.{
  RateLib, LimiterStore, Handler, Request, exceeded, flag, allow, limit_key,
  rate_limit_unary_interceptor,
}
use rea_time_chat_g_rpc.RateLimit.Isolation.{key_allow}
use rea_time_chat_g_rpc.RateLimit.Interceptor.{rate_limit_decision}
use rea_time_chat_g_rpc.Api.Interceptors.{
  Call, allowed_methods, auth_unary_interceptor, auth_stream_interceptor,
}
use rea_time_chat_g_rpc.Api.Interceptors.Access.{Carries, auth_stream_access}
use rea_time_chat_g_rpc.Api.Service.{
  UnaryMethod, register, login, StreamMethod, list_chats, get_history, chat_stream,
  unary_full_method, stream_full_method, Implementation, Interceptor, unary_handler,
}

-- `limited` of `main`.
abbrev pub limited : List (Text × Bool)
limited =
    (codes "/chat.v1.ChatService/Register", true) ∷ (codes "/chat.v1.ChatService/Login", true) ∷ []

-- The readings of the clock by the two interceptors.
pub record Moments : Type 0 where
  pub looked_up : ℕ
  pub asked : ℕ
  pub verified : ℕ

-- No stream is open.
pub streams_closed :
    (m : StreamMethod) → flag (lookup text_discrete (stream_full_method m) allowed_methods) ≡ false
unfolding stream_full_method lookup text_discrete
streams_closed list_chats = refl
streams_closed get_history = refl
streams_closed chat_stream = refl

module _ (t : CaseTable) (tokens : TokenLib) (j : JwtManager) {Limit Limiter : Type 0}
    (lib : RateLib Limit Limiter) where
  -- The handler that the authentication puts behind the rate limiter.
  abbrev pub authenticated :
      {A R W : Type 0}
      → ℕ
      → Call
      → A
      → Implementation A R (LimiterStore Limit Limiter × W)
      → Handler Limit Limiter R W
  authenticated now call req handler s w =
      let (r, (s', w')) =
        auth_unary_interceptor t tokens j now call (λ c v. handler c req v) (s, w) in
      (r, s', w')

  -- `grpc.ChainUnaryInterceptor` of the rate limiter and the authentication. `peer_addr` is the address
  -- of the peer, and `get_email` reads the address of the request.
  pub unary_chain :
      {A R W : Type 0}
      → Moments
      → Option Text
      → (A → Option Text)
      → Interceptor A R (LimiterStore Limit Limiter × W)
  unary_chain at peer_addr get_email call req handler (s, w) =
      let (r, s', w') =
        rate_limit_unary_interceptor lib limited at.looked_up at.asked
          (record {
            full_method = call.full_method;
            peer_addr = peer_addr;
            get_email = get_email req;
          })
          (authenticated at.verified call req handler) s w in
      (r, (s', w'))

  -- Both unary methods are limited, and both are open.
  methods_limited :
      (m : UnaryMethod) → flag (lookup text_discrete (unary_full_method m) limited) ≡ true
  unfolding unary_full_method lookup text_discrete
  methods_limited register = refl
  methods_limited login = refl

  methods_open :
      (m : UnaryMethod) → flag (lookup text_discrete (unary_full_method m) allowed_methods) ≡ true
  unfolding unary_full_method lookup text_discrete
  methods_open register = refl
  methods_open login = refl

  -- An open method reaches its handler as it is.
  authenticated-open :
      {A R W : Type 0} (m : UnaryMethod) (now : ℕ) (ctx : Call) (req : A)
      (srv : Implementation A R (LimiterStore Limit Limiter × W)) (s : LimiterStore Limit Limiter)
      (w : W)
      → let call : Call = record ctx { full_method = unary_full_method m } in
        let (r, (s', w')) = srv call req (s, w) in authenticated now call req srv s w ≡ (r, s', w')
  unfolding auth_unary_interceptor
  authenticated-open m now ctx req srv s w = ground (arith, methods_open m)

  -- Register and Login need no token, and each call of them is decided by the limiter of its key: it is
  -- answered ResourceExhausted, or by the server's method under the context of the call.
  pub unary_call :
      {A R W : Type 0} (m : UnaryMethod) (at : Moments) (peer_addr : Option Text)
      (get_email : A → Option Text) (srv : Implementation A R (LimiterStore Limit Limiter × W))
      (ctx : Call) (req : A) (s : LimiterStore Limit Limiter) (w : W)
      → let call : Call = record ctx { full_method = unary_full_method m } in
        let key = limit_key (record {
          full_method = unary_full_method m;
          peer_addr = peer_addr;
          get_email = get_email req;
        }) in
        let decision =
          (key_allow lib at.looked_up at.asked s.limit s.burst
            (lookup text_discrete key s.clients)).0 in
        let counted = (allow lib at.looked_up at.asked key s).1 in
        unary_handler m srv ctx (ok req) (some (unary_chain at peer_addr get_email)) (s, w)
        ≡ (if decision then srv call req (counted, w) else (err exceeded, (counted, w)))
  unfolding unary_handler unary_chain
  unary_call m at peer_addr get_email srv ctx req s w =
      let call : Call = record ctx { full_method = unary_full_method m } in
      let request : Request = record {
        full_method = unary_full_method m;
        peer_addr = peer_addr;
        get_email = get_email req;
      } in
      let handler = authenticated at.verified call req srv in
      let counted = (allow lib at.looked_up at.asked (limit_key request) s).1 in
      ground (
        arith,
        rate_limit_decision lib limited at.looked_up at.asked request handler s w,
        methods_limited m,
        authenticated-open m at.verified ctx req srv counted w,
      )

  -- The handler of every stream of the service runs only with the claims of a verified token in its
  -- context; otherwise the answer is Unauthenticated and the world is as it was.
  stream_call :
      {E W : Type 0} (refuse : Status → E) (m : StreamMethod) (now : ℕ) (ctx : Call)
      (handler : Call → W → E × W) (w : W)
      → let call : Call = record ctx { full_method = stream_full_method m } in
        ((c : Claims) × Carries t tokens j now call c
          × (auth_stream_interceptor t tokens j refuse now call handler w
              ≡ handler (record call { claims = some c }) w))
        ⊎ ((e : Status) × (e.code ≡ unauthenticated)
            × (auth_stream_interceptor t tokens j refuse now call handler w ≡ (refuse e, w)))
  stream_call refuse m now ctx handler w =
      auth_stream_access t tokens j refuse now _ handler w (streams_closed m)
