-- ===== src/Auth.antt =====
-- internal/auth/jwt.go. The JWT library, bcrypt and `ObjectID.Hex` are the parameters `TokenLib` and
-- `Bcrypt`; a time is a number of nanoseconds, and each `time.Now()` is an argument.
pub mod Keys
pub mod Tokens
pub mod Samples
mod Tests
use rea_time_chat_g_rpc.Base.{
  ℕ, ◌+◌, Bool, true, false, Option, none, some, List, [], ◌∷◌, ◌++◌, Text, codes, text_discrete,
  lookup, insert, if◌then◌else◌, Result, ok, err, ◌>>=◌,
}
use rea_time_chat_g_rpc.Errors.{Error, message, formatted}
use rea_time_chat_g_rpc.Normalize.{CaseTable, email}

pub record Claims : Type 0 where
  pub user_id : Text
  pub email : Text
  pub expires_at : Option ℕ
  pub issued_at : Option ℕ

-- The value of a token's `kid` header: JSON text, or any other JSON value.
pub data Header : Type 0 where
  str : Text → Header
  other : Header

-- What the key function sees of a parsed token.
pub record Token : Type 0 where
  pub is_hmac : Bool
  pub alg : Text
  pub kid : Option Header

pub record Parsed : Type 0 where
  pub token : Token
  pub claims : Claims
  pub valid : Bool

-- `github.com/golang-jwt/jwt/v5` and `bson.ObjectID`.
pub record TokenLib : Type 0 where
  pub hex : ℕ → Text
  pub numeric_date : ℕ → ℕ
  pub sign_hs256 : Text → Claims → Text → Result Error Text
  pub parse_with_claims : ℕ → Text → (Token → Result Error Text) → Result Error Parsed

pub record JwtManager : Type 0 where
  pub keys : List (Text × Text)
  pub active : Text
  pub duration : ℕ

unfoldable pub new_jwt_manager : Text → ℕ → JwtManager
new_jwt_manager secret_key duration = record {
  keys = (codes "1", secret_key) ∷ [];
  active = codes "1";
  duration = duration;
}

-- `for k, v := range keyMap { keys[k] = []byte(v) }`
unfoldable pub copy_keys : List (Text × Text) → List (Text × Text) → List (Text × Text)
copy_keys [] keys = keys
copy_keys ((k, v) ∷ key_map) keys = copy_keys key_map (insert text_discrete k v keys)

-- `for k := range keys { activeKid = k; break }`
pub first_kid : List (Text × Text) → Text
first_kid [] = []
first_kid ((k, v) ∷ keys) = k

-- `if activeKid == "" { … }`
pub pick_kid : Text → List (Text × Text) → Text
pick_kid [] keys = first_kid keys
pick_kid (c ∷ s) keys = c ∷ s

-- `order` is the order in which `range` visits a map.
pub new_jwt_manager_from_keys :
    (List (Text × Text) → List (Text × Text)) → List (Text × Text) → Text → ℕ → JwtManager
new_jwt_manager_from_keys order key_map active_kid duration =
    let keys = copy_keys (order key_map) [] in
    record { keys = keys; active = pick_kid active_kid (order keys); duration = duration }

-- The last lines of the callback: the active secret.
pub active_key : JwtManager → Result Error Text
active_key m = elim (lookup text_discrete m.active m.keys) [
  | none ↦ err (message (codes "no signing key available"))
  | some s ↦ ok s
]

-- The key that the `kid` header picks.
pub key_of_kid : JwtManager → Option Header → Result Error Text
key_of_kid m none = active_key m
key_of_kid m (some other) = active_key m
key_of_kid m (some (str kid)) = elim (lookup text_discrete kid m.keys) [
  | none ↦ err (formatted (codes "unknown kid: %v") kid)
  | some s ↦ ok s
]

-- The callback that `VerifyToken` passes to `ParseWithClaims`.
pub key_func : JwtManager → Token → Result Error Text
key_func m token =
    if token.is_hmac
    then key_of_kid m token.kid
    else err (formatted (codes "unexpected signing method: %v") token.alg)

module _ (t : CaseTable) (lib : TokenLib) where
  -- `now` and `later` are the two readings of the clock.
  unfoldable pub generate_token : JwtManager → ℕ → Text → ℕ → ℕ → Result Error (Text × ℕ)
  generate_token m user_id mail now later =
      let expires_at = now + m.duration in
      let claims : Claims = record {
        user_id = lib.hex user_id;
        email = email t mail;
        expires_at = some (lib.numeric_date expires_at);
        issued_at = some (lib.numeric_date later);
      } in
      elim (lookup text_discrete m.active m.keys) [
        | none ↦ err (formatted (codes "active signing key %q not found") m.active)
        | some active_secret ↦ elim (lib.sign_hs256 m.active claims active_secret) [
          | err e ↦ err e
          | ok token_string ↦ ok (token_string, expires_at)
        ]
      ]

  pub verify_token : JwtManager → ℕ → Text → Result Error Claims
  verify_token m now token_string = do
    parsed ← lib.parse_with_claims now token_string (key_func m)
    if parsed.valid
        then ok (record (parsed.claims) { email = email t parsed.claims.email })
        else err (message (codes "invalid token"))

-- `golang.org/x/crypto/bcrypt`
pub record Bcrypt : Type 0 where
  pub generate_from_password : Text → Result Error Text
  pub compare_hash_and_password : Text → Text → Option Error

module _ (lib : Bcrypt) where
  unfoldable pub hash_password : Text → Result Error Text
  hash_password password = elim (lib.generate_from_password password) [
    | err e ↦ err e
    | ok hashed_password ↦ ok hashed_password
  ]

  unfoldable pub check_password : Text → Text → Option Error
  check_password hash password = lib.compare_hash_and_password hash password
