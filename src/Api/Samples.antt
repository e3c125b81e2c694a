-- ===== src/Api/Samples.antt =====
-- A hash, a manager, a clock and the requests of one user, for examples.
use rea_time_chat_g_rpc.Base.{none, some, ◌∷◌, codes, ok, text_eq, if◌then◌else◌}
use rea_time_chat_g_rpc.Errors.{eof}
use rea_time_chat_g_rpc.Auth.{JwtManager, Bcrypt, new_jwt_manager}
use rea_time_chat_g_rpc.Auth.Samples.{secret, bob_token}
use rea_time_chat_g_rpc.Data.Models.{User}
use rea_time_chat_g_rpc.Api.Requests.{
  RegisterRequest, RegisterResponse, LoginRequest, LoginResponse,
}
use rea_time_chat_g_rpc.Api.Handlers.Accounts.{Clock}
use rea_time_chat_g_rpc.Samples.{bob, spaced_bob}

-- A hash is the password behind a zero.
abbrev pub plain : Bcrypt
plain = record {
  generate_from_password = λ p. ok (0 ∷ p);
  compare_hash_and_password = λ h p. if text_eq h (0 ∷ p) then none else some eof;
}

abbrev pub jwt : JwtManager
jwt = new_jwt_manager secret 10

abbrev pub clock : Clock
clock = record { created = 1000000; updated = 2000000; now = 100; issued = 11 }

abbrev pub sign_up : RegisterRequest
sign_up = record { email = spaced_bob; password = codes "pw" }

abbrev pub bob_user : User
bob_user = record {
  id = 0;
  email = bob;
  password = 0 ∷ codes "pw";
  created_at = 1000000;
  updated_at = 2000000;
}

abbrev pub answer : RegisterResponse
answer = record { token = bob_token; user_id = codes "u"; expires_at = 110 }

abbrev pub log_in : LoginRequest
log_in = record { email = bob; password = codes "pw" }

abbrev pub entered : LoginResponse
entered = record { token = bob_token; user_id = codes "u"; expires_at = 110 }
