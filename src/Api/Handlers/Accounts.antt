-- ===== src/Api/Handlers/Accounts.antt =====
-- `Register` and `Login` of cmd/api/handlers.go.
pub mod Sessions
use rea_time_chat_g_rpc.Base.{ℕ, Option, none, some, Text, codes, Result, ok, err, ◌>>=◌, map_err}
use rea_time_chat_g_rpc.Errors.{Error, Code, not_found, permission_denied, internal, Status}
use rea_time_chat_g_rpc.Normalize.{CaseTable}
use rea_time_chat_g_rpc.Auth.{
  TokenLib, JwtManager, Bcrypt, generate_token, hash_password, check_password,
}
use rea_time_chat_g_rpc.Data.Models.{User}
use rea_time_chat_g_rpc.Api.Stores.{UsersStore}
use rea_time_chat_g_rpc.Api.Requests.{
  RegisterRequest, RegisterResponse, LoginRequest, LoginResponse,
}

abbrev pub fail_with : Code → Text → Option Error → Status
fail_with code format cause = record { code = code; format = format; cause = cause }

-- The readings of the clock of one call: two by `CreateUser`, two by `GenerateToken`.
pub record Clock : Type 0 where
  pub created : ℕ
  pub updated : ℕ
  pub now : ℕ
  pub issued : ℕ

module _ (t : CaseTable) (lib : TokenLib) (bcrypt : Bcrypt) {W : Type 0} (users : UsersStore W)
    (j : JwtManager) where
  -- From the token on, `Register` answers so.
  unfoldable pub register_response : Clock → User → Result Status RegisterResponse
  register_response clock user =
      elim (generate_token t lib j user.id user.email clock.now clock.issued) [
        | err e ↦ err (fail_with internal (codes "failed to generate token: %v") (some e))
        | ok (token, expires_at) ↦
            ok (record { token = token; user_id = lib.hex user.id; expires_at = expires_at })
      ]

  unfoldable pub register : Clock → RegisterRequest → W → Result Status RegisterResponse × W
  register clock req w = elim (hash_password bcrypt req.password) [
    | err e ↦ (err (fail_with internal (codes "failed to hash password: %v") (some e)), w)
    | ok hashed ↦
        let (created, w') = users.create_user req.email hashed clock.created clock.updated w in
        elim created [
          | err e ↦ (err (fail_with internal (codes "failed to create user") none), w')
          | ok user ↦ (register_response clock user, w')
        ]
  ]

  -- From the token on, `Login` answers so.
  unfoldable pub login_response : Clock → User → Result Status LoginResponse
  login_response clock user =
      elim (generate_token t lib j user.id user.email clock.now clock.issued) [
        | err e ↦ err (fail_with internal (codes "failed to generate token: %v") (some e))
        | ok (token, expires_at) ↦
            ok (record { token = token; user_id = lib.hex user.id; expires_at = expires_at })
      ]

  unfoldable pub login : Clock → LoginRequest → W → Result Status LoginResponse
  login clock req w = elim (users.get_user_by_email req.email w) [
    | err e ↦ err (fail_with not_found (codes "user not found") none)
    | ok user ↦ elim (check_password bcrypt user.password req.password) [
      | some e ↦ err (fail_with permission_denied (codes "invalid credentials") none)
      | none ↦ login_response clock user
    ]
  ]
