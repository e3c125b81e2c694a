-- ===== src/Api/Process/Tests.antt =====
-- A process that serves until a signal comes, over a driver that takes every index.
use rea_time_chat_g_rpc.Base.{
  ℕ, suc, ◌+◌, ◌*◌, ◌≡◌, refl, none, some, codes, ok, err, [], text_discrete,
}
use rea_time_chat_g_rpc.Errors.{eof}
use rea_time_chat_g_rpc.RateLimit.{stop, new_limiter_store}
use rea_time_chat_g_rpc.RateLimit.Samples.{counting}
use rea_time_chat_g_rpc.Db.{Driver, new, ping_client, create_indexes, index_messages}
use rea_time_chat_g_rpc.Api.Config.{Env, boot, open_database, assemble, jwt_manager, credentials}
use rea_time_chat_g_rpc.Api.Process.{
  System, interrupted, finished, main, run_deferred, serve_and_wait,
}

-- The world counts: a connection is 1, the graceful stop doubles the count and adds 1, and closing adds 5.
abbrev lenient : Driver Unit ℕ
lenient = record {
  connect = λ uri w. (ok tt, suc w);
  ping = λ c w. (none, w);
  disconnect = λ c w. (none, w + 5);
  create_one = λ c coll m w. (none, w);
  create_many = λ c coll ms w. (none, w);
}

abbrev system : System ℕ
system = record { listen = λ addr w. (none, w); graceful_stop = λ w. 2 * w + 1 }

abbrev env : Env
env = record {
  mongodb_uri = codes "mongodb://localhost";
  jwt_secret = codes "secret";
  jwt_keys = [];
  jwt_active_kid = [];
  port = [];
  rate_limit_rpm = [];
  tls_cert = [];
  tls_key = [];
  require_tls = [];
}

program : Unit {0}
unfolding main serve_and_wait run_deferred boot open_database assemble jwt_manager credentials new
    ping_client create_indexes index_messages stop new_limiter_store text_discrete
program = tt

ended :
    (main {Creds = Unit} lenient system
      (λ c k. err eof)
      counting
      (λ m. m)
      (some interrupted)
      env
      0).0
    ≡ some finished
unfolding program
ended = refl
