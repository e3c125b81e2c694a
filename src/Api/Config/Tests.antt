-- ===== src/Api/Config/Tests.antt =====
-- An environment with two keys and no usable rate.
use rea_time_chat_g_rpc.Base.{◌≡◌, arith, false, List, [], ◌∷◌, Text, codes, ok, err, is_ok}
use rea_time_chat_g_rpc.Errors.{eof}
use rea_time_chat_g_rpc.Auth.{copy_keys}
use rea_time_chat_g_rpc.RateLimit.Samples.{counting}
use rea_time_chat_g_rpc.Db.Samples.{strict, strict-RefusesMaps}
use rea_time_chat_g_rpc.Api.Config.{Env, split, parse_pairs, boot}
use rea_time_chat_g_rpc.Api.Config.Keys.{Avoids, parse_pairs-print_keys}
use rea_time_chat_g_rpc.Api.Config.Boot.{boot_fails}

abbrev key_map : List (Text × Text)
key_map = (codes "a", codes "x:y") ∷ (codes "b", codes "z") ∷ []

abbrev env : Env
env = record {
  mongodb_uri = codes "mongodb://localhost";
  jwt_secret = [];
  jwt_keys = codes "a:x:y,b:z";
  jwt_active_kid = codes "b";
  port = [];
  rate_limit_rpm = codes "-5";
  tls_cert = [];
  tls_key = [];
  require_tls = [];
}

xy_plain : Avoids b',' (codes "x:y")
xy_plain = ((λ e. omega arith), ((λ e. omega arith), ((λ e. omega arith), tt)))

parse_pairs-print_keys_example :
    parse_pairs (split b',' (codes "a:x:y,b:z")) [] ≡ ok (copy_keys key_map [])
parse_pairs-print_keys_example = parse_pairs-print_keys key_map [] (
  (((λ e. omega arith), tt), ((λ e. omega arith), tt), xy_plain),
  ((((λ e. omega arith), tt), ((λ e. omega arith), tt), ((λ e. omega arith), tt)), tt),
)

boot_fails_example :
    is_ok (boot {Creds = Unit} (λ c k. err eof) strict counting (λ m. m) env 0).0 ≡ false
boot_fails_example =
    boot_fails {Creds = Unit} (λ c k. err eof) strict strict-RefusesMaps counting (λ m. m) env 0
