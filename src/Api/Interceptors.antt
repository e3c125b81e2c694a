-- ===== src/Api/Interceptors.antt =====
-- cmd/api/interceptors.go: who may call which method, and as whom.
pub mod Access
use rea_time_chat_g_rpc.Base.{
  ℕ, Bool, true, false, Option, none, some, List, [], ◌∷◌, Text, codes, text_discrete, lookup, ◌==◌,
  if◌then◌else◌, Result, ok, err, ◌>>=◌,
}
use rea_time_chat_g_rpc.Errors.{Error, Status, unauthenticated}
use rea_time_chat_g_rpc.Normalize.{CaseTable, trim_space}
use rea_time_chat_g_rpc.Auth.{Claims, TokenLib, JwtManager, verify_token}
use rea_time_chat_g_rpc.RateLimit.{flag}

-- What a call brings: its method, the incoming metadata, and the claims attached to its context.
pub record Call : Type 0 where
  pub full_method : Text
  pub metadata : Option (List (Text × List Text))
  pub claims : Option Claims

-- `getClaimsFromContext`
abbrev pub get_claims_from_context : Call → Option Claims
get_claims_from_context c = c.claims

abbrev pub register_method : Text
register_method = codes "/chat.v1.ChatService/Register"

abbrev pub login_method : Text
login_method = codes "/chat.v1.ChatService/Login"

-- The methods that need no authentication.
abbrev pub allowed_methods : List (Text × Bool)
allowed_methods = (register_method, true) ∷ (login_method, true) ∷ []

-- `md.Get("authorization")`
unfoldable pub get_values : Text → List (Text × List Text) → List Text
get_values k md = elim (lookup text_discrete k md) [ none ↦ [] | some values ↦ values ]

-- What stands behind a prefix, if the text begins with it.
pub strip : Text → Text → Option Text
strip [] s = some s
strip (p ∷ prefix) [] = none
strip (p ∷ prefix) (c ∷ s) = if p == c then strip prefix s else none

-- `strings.TrimPrefix`
pub trim_prefix : Text → Text → Text
trim_prefix s prefix = elim (strip prefix s) [ none ↦ s | some rest ↦ rest ]

abbrev pub unauthenticated_err : {A : Type 0} → Text → Option Error → Result Status A
unauthenticated_err format cause =
    err (record { code = unauthenticated; format = format; cause = cause })

-- `if token == "" { … }`
pub non_empty : Text → Result Status Text
non_empty [] = unauthenticated_err (codes "invalid token") none
non_empty (c ∷ s) = ok (c ∷ s)

-- The token of the first header, if there is one.
pub header_token : List Text → Result Status Text
header_token [] = unauthenticated_err (codes "missing authorization header") none
header_token (header ∷ _) = non_empty (trim_space (trim_prefix header (codes "Bearer")))

pub bearer_token : Option (List (Text × List Text)) → Result Status Text
bearer_token none = unauthenticated_err (codes "missing metadata") none
bearer_token (some md) = header_token (get_values (codes "authorization") md)

module _ (t : CaseTable) (lib : TokenLib) (j : JwtManager) where
  -- The steps that both interceptors spell out.
  pub authenticate : ℕ → Call → Result Status Claims
  authenticate now call = do
    token ← bearer_token call.metadata
    elim (verify_token t lib j now token) [
      | err e ↦ unauthenticated_err (codes "unauthenticated: %v") (some e)
      | ok claims ↦ ok claims
    ]

  -- A handler takes the call with its context, and works on the world `W`.
  unfoldable pub auth_unary_interceptor :
      {R W : Type 0} → ℕ → Call → (Call → W → Result Status R × W) → W → Result Status R × W
  auth_unary_interceptor now call handler w =
      if flag (lookup text_discrete call.full_method allowed_methods)
      then handler call w
      else elim (authenticate now call) [
        | err e ↦ (err e, w)
        | ok claims ↦ handler (record call { claims = some claims }) w
      ]

  -- The context of a stream is that of the call; `grpcmiddlewareServerStream` replaces it.
  -- `E` is how a handler may end, and `refuse` the end that returns a status.
  pub auth_stream_interceptor :
      {E W : Type 0} → (Status → E) → ℕ → Call → (Call → W → E × W) → W → E × W
  auth_stream_interceptor refuse now call handler w =
      if flag (lookup text_discrete call.full_method allowed_methods)
      then handler call w
      else elim (authenticate now call) [
        | err e ↦ (refuse e, w)
        | ok claims ↦ handler (record call { claims = some claims }) w
      ]
