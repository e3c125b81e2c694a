-- ===== src/Api/Service/Tests.antt =====
-- A login that finds its limiter used up, and a stream that is called without a token.
use rea_time_chat_g_rpc.Base.{
  ℕ, ◌+◌, ◌≡◌, false, Option, none, some, [], ◌∷◌, ◌++◌, codes, text_discrete, ℕ_discrete, lookup,
  ok, err,
}
use rea_time_chat_g_rpc.Errors.{Status}
use rea_time_chat_g_rpc.Auth.{JwtManager, new_jwt_manager}
use rea_time_chat_g_rpc.Auth.Samples.{toy, secret}
use rea_time_chat_g_rpc.RateLimit.{LimiterStore, exceeded, allow, limit_key}
use rea_time_chat_g_rpc.RateLimit.Samples.{counting}
use rea_time_chat_g_rpc.Api.Requests.{LoginRequest}
use rea_time_chat_g_rpc.Api.Interceptors.{Call}
use rea_time_chat_g_rpc.Api.Service.{
  Implementation, login, chat_stream, stream_full_method, unary_handler,
}
use rea_time_chat_g_rpc.Api.Service.Chain.{Moments, unary_chain, unary_call}
use rea_time_chat_g_rpc.Samples.{ascii, bob}

abbrev jwt : JwtManager
jwt = new_jwt_manager secret 10

abbrev anonymous : Call
anonymous = record { full_method = []; metadata = none; claims = none }

abbrev request : LoginRequest
request = record { email = bob; password = codes "pw" }

abbrev used_up : LimiterStore ℕ ℕ
used_up = record {
  limit = 60;
  burst = 1;
  clients = (codes "email:" ++ bob, record { limiter = 0; last_seen = 1 }) ∷ [];
  cleanup_interval = 60;
  stopped = false;
}

abbrev at : Moments
at = record { looked_up = 2; asked = 3; verified = 4 }

abbrev answering : Implementation LoginRequest ℕ (LimiterStore ℕ ℕ × ℕ)
answering call req (s, w) = (ok 1, (s, w + 1))

unary_call_example :
    unary_handler login answering anonymous
      (ok request)
      (some (unary_chain ascii toy jwt counting at none (λ r. some (r.email))))
      (used_up, 0)
    ≡ (err exceeded, ((allow counting 2 3 (codes "email:bob@x.org") used_up).1, 0))
unfolding lookup limit_key text_discrete ℕ_discrete
unary_call_example =
    unary_call ascii toy jwt counting login at none (λ r. some (r.email)) answering anonymous
      request used_up 0

abbrev stream : Call → ℕ → Option Status × ℕ
stream call w = (none, w + 1)

abbrev chat_call : Call
chat_call = record anonymous { full_method = stream_full_method chat_stream }
