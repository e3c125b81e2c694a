-- ===== src/RateLimit/Tests.antt =====
-- A limiter that counts down its burst, and two clients of it.
use rea_time_chat_g_rpc.Base.{
  ℕ, suc, ◌≡◌, refl, Bool, true, false, none, some, List, [], ◌∷◌, ◌++◌, Text, codes, text_discrete,
  ℕ_discrete, lookup, insert, ok, Result,
}
use rea_time_chat_g_rpc.Errors.{Status}
use rea_time_chat_g_rpc.Normalize.{email}
use rea_time_chat_g_rpc.RateLimit.{
  LimiterStore, Handler, Request, get_limiter, write_limiter, allow, cleanup, expire, limit_key,
  email_key, rate_limit_unary_interceptor,
}
use rea_time_chat_g_rpc.RateLimit.History.{
  allows, decisions, key_decisions, decisions-key_decisions,
}
use rea_time_chat_g_rpc.Base.{length, ◌≤◌}
use rea_time_chat_g_rpc.RateLimit.Memory.{after, cleanup-length}
use rea_time_chat_g_rpc.RateLimit.Interceptor.{spaced_address_bypass}
use rea_time_chat_g_rpc.RateLimit.Samples.{counting}
use rea_time_chat_g_rpc.Samples.{ascii, ann, bob}

abbrev store : LimiterStore ℕ ℕ
store = record { limit = 60; burst = 1; clients = []; cleanup_interval = 60; stopped = false }

program : Unit {0}
unfolding allow get_limiter write_limiter lookup insert text_discrete ℕ_discrete key_decisions
    decisions cleanup expire limit_key rate_limit_unary_interceptor
program = tt

-- Ann's second call is refused, although Bob has been let through in between.
decisions-key_decisions_example :
    decisions counting ann (allows 1 1 ann ∷ allows 2 2 bob ∷ allows 3 3 ann ∷ []) store
    ≡ true ∷ false ∷ []
unfolding program
decisions-key_decisions_example =
    decisions-key_decisions counting ann (allows 1 1 ann ∷ allows 2 2 bob ∷ allows 3 3 ann ∷ [])
      store tt

abbrev login_request : Request
login_request = record { full_method = codes "Login"; peer_addr = none; get_email = some bob }

abbrev answer : Handler ℕ ℕ ℕ ℕ
answer s w = (ok 1, s, suc w)

abbrev only_login : List (Text × Bool)
only_login = (codes "Login", true) ∷ []

abbrev after_one : LimiterStore ℕ ℕ
after_one = (allow counting 1 1 (codes "email:" ++ bob) store).1

abbrev second_out : Result Status ℕ × LimiterStore ℕ ℕ × ℕ
second_out = rate_limit_unary_interceptor counting only_login 2 2 login_request answer after_one 0

spaced_address_bypass_example :
    (email ascii (codes " bob@x.org") ≡ email ascii bob)
    × ((allow counting 3 3
          (email_key (codes " bob@x.org") [])
          (allow counting 2 2 (email_key bob []) after_one).1).0
        ≡ true)
unfolding program
spaced_address_bypass_example =
    spaced_address_bypass counting ascii b'b' (codes "ob@x.org") [] [] 2 2 3 3 after_one refl

-- Ann was seen long ago, and Bob twice in the last ten minutes.
cleanup-length_example :
    length
      (cleanup 700000000000 (
        after counting
          (allows 1 1 ann
            ∷ allows 200000000000 200000000000 bob
            ∷ allows 300000000000 300000000000 bob
            ∷ [])
          store)).clients
    ≤ 2
cleanup-length_example =
    cleanup-length counting 700000000000
      (allows 1 1 ann
        ∷ allows 200000000000 200000000000 bob
        ∷ allows 300000000000 300000000000 bob
        ∷ [])
      store refl
