-- ===== src/Api/Config.antt =====
-- cmd/api/main.go up to the start of the server: the environment, the keys, the limiter, the TLS
-- credentials. What `strings` and `strconv` do is written out; loading a certificate is a parameter.
pub mod Keys
pub mod Boot
mod Tests
use rea_time_chat_g_rpc.Base.{
  ℕ, zero, suc, ◌+◌, ◌-◌, ◌*◌, Bool, not, ◌&&◌, Option, none, some, List, [], ◌∷◌, Text, codes,
  text_discrete, insert, text_eq, ltb, leb, ◌==◌, if◌then◌else◌, ℤ, pos, negsuc, Result, ok, err,
  ◌>>=◌, map_err,
}
use rea_time_chat_g_rpc.Errors.{Error, message, formatted, wrapped}
use rea_time_chat_g_rpc.Auth.{JwtManager, new_jwt_manager, new_jwt_manager_from_keys}
use rea_time_chat_g_rpc.RateLimit.{RateLib, LimiterStore, new_limiter_store, minute}
use rea_time_chat_g_rpc.Db.{Driver, Client, new, create_indexes}

-- `os.Getenv` of each variable, which is empty if the variable is unset.
pub record Env : Type 0 where
  pub mongodb_uri : Text
  pub jwt_secret : Text
  pub jwt_keys : Text
  pub jwt_active_kid : Text
  pub port : Text
  pub rate_limit_rpm : Text
  pub tls_cert : Text
  pub tls_key : Text
  pub require_tls : Text

-- puts a character before the first part
pub cons_first : ℕ → List Text → List Text
cons_first c [] = (c ∷ []) ∷ []
cons_first c (p ∷ ps) = (c ∷ p) ∷ ps

-- `strings.Split` at a separator of one character
pub split : ℕ → Text → List Text
split sep [] = [] ∷ []
split sep (c ∷ s) = if c == sep then [] ∷ split sep s else cons_first c (split sep s)

-- `strings.SplitN(s, sep, 2)`, with `none` for a single part
pub split_2 : ℕ → Text → Option (Text × Text)
split_2 sep [] = none
split_2 sep (c ∷ s) =
    if c == sep
    then some ([], s)
    else elim (split_2 sep s) [ none ↦ none | some (k, v) ↦ some (c ∷ k, v) ]

-- The loop over the pairs; an error is the argument of `log.Fatalf`.
pub parse_pairs : List Text → List (Text × Text) → Result Error (List (Text × Text))
parse_pairs [] key_map = ok key_map
parse_pairs ([] ∷ pairs) key_map = parse_pairs pairs key_map
parse_pairs ((c ∷ p) ∷ pairs) key_map = elim (split_2 b':' (c ∷ p)) [
  | none ↦ err (formatted (codes "invalid JWT_KEYS entry: %s") (c ∷ p))
  | some (k, v) ↦ parse_pairs pairs (insert text_discrete k v key_map)
]

abbrev pub day : ℕ
day = 86400000000000

-- `order` is the order in which `range` visits a map.
unfoldable pub jwt_manager :
    (List (Text × Text) → List (Text × Text)) → Env → Result Error JwtManager
jwt_manager order env =
    if text_eq env.jwt_keys []
    then ok (new_jwt_manager env.jwt_secret day)
    else elim (parse_pairs (split b',' env.jwt_keys) []) [
      | err e ↦ err e
      | ok key_map ↦ ok (new_jwt_manager_from_keys order key_map env.jwt_active_kid day)
    ]

abbrev pub int_bound : ℕ
int_bound = 9223372036854775808

pub digits : Text → ℕ → Option ℕ
digits [] n = some n
digits (c ∷ s) n = if leb b'0' c && leb c b'9' then digits s (n * 10 + (c - b'0')) else none

-- At least one digit.
pub number : Text → Option ℕ
number [] = none
number (c ∷ s) = digits (c ∷ s) 0

abbrev pub negative : ℕ → ℤ
negative zero = pos zero
negative (suc n) = negsuc n

-- `strconv.Atoi`, with `none` for its errors
pub atoi : Text → Option ℤ
atoi [] = none
atoi (c ∷ s) =
    if c == b'-'
    then elim (number s) [
      | none ↦ none
      | some n ↦ if leb n int_bound then some (negative n) else none
    ]
    else elim (number (if c == b'+' then s else c ∷ s)) [
      | none ↦ none
      | some n ↦ if ltb n int_bound then some (pos n) else none
    ]

-- `if … err == nil && n > 0 { rateRPM = n }`, with 10 otherwise
abbrev pub positive_or_10 : Option ℤ → ℕ
positive_or_10 (some (pos (suc n))) = suc n
positive_or_10 _ = 10

pub rate_rpm : Env → ℕ
rate_rpm env =
    if text_eq env.rate_limit_rpm [] then 10 else positive_or_10 (atoi env.rate_limit_rpm)

-- The server's credentials, with `none` for plain text.
unfoldable pub credentials :
    {Creds : Type 0} → (Text → Text → Result Error Creds) → Env → Result Error (Option Creds)
credentials load env =
    if not (text_eq env.tls_cert []) && not (text_eq env.tls_key [])
    then elim (load env.tls_cert env.tls_key) [
      | err e ↦ err (wrapped (codes "failed to load TLS certs: %v") e)
      | ok creds ↦ ok (some creds)
    ]
    else if text_eq env.require_tls (codes "true")
    then err (message (codes "REQUIRE_TLS is true but TLS_CERT/TLS_KEY are not configured"))
    else ok none

pub listen_port : Env → Text
listen_port env = if text_eq env.port [] then codes "50051" else env.port

-- What the server is built from.
pub record Config (Creds C Limit Limiter : Type 0) : Type 0 where
  pub db_client : Client C
  pub jwt_mgr : JwtManager
  pub limiter_store : LimiterStore Limit Limiter
  pub server_creds : Option Creds
  pub listen : Text

module _ {Creds C W Limit Limiter : Type 0} (load : Text → Text → Result Error Creds)
    (driver : Driver C W) (lib : RateLib Limit Limiter)
    (order : List (Text × Text) → List (Text × Text)) where
  -- What `main` builds once the database is ready.
  unfoldable pub assemble : Env → Client C → Result Error (Config Creds C Limit Limiter)
  assemble env client = do
    jwt_mgr ← jwt_manager order env
    creds ← credentials load env
    ok (record {
      db_client = client;
      jwt_mgr = jwt_mgr;
      limiter_store = new_limiter_store lib (pos (rate_rpm env)) 3 minute;
      server_creds = creds;
      listen = listen_port env;
    })

  -- From the connection on.
  unfoldable pub open_database : Env → W → Result Error (Config Creds C Limit Limiter) × W
  open_database env w =
      let (result, w') = new driver env.mongodb_uri w in
      elim result [
        | err e ↦ (err (wrapped (codes "failed to connect to DB: %v") e), w')
        | ok client ↦
            let (failed, w'') = create_indexes driver client w' in
            elim failed [
              | some e ↦ (err (wrapped (codes "failed to create indexes: %v") e), w'')
              | none ↦ (assemble env client, w'')
            ]
      ]

  -- An error is what `log.Fatal` prints before the process exits.
  unfoldable pub boot : Env → W → Result Error (Config Creds C Limit Limiter) × W
  boot env w =
      if text_eq env.mongodb_uri []
      then (err (message (codes "MONGODB_URI must be set")), w)
      else if text_eq env.jwt_keys [] && text_eq env.jwt_secret []
      then (err (message (codes "either JWT_SECRET or JWT_KEYS must be set")), w)
      else open_database env w
