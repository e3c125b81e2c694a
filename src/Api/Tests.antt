-- ===== src/Api/Tests.antt =====
-- A registration, a login, calls with and without a token, and a chat stream.
use rea_time_chat_g_rpc.Base.{
  ◌≡◌, refl, none, List, [], ◌∷◌, arith, codes, text_discrete, ℕ_discrete, count, Has, lookup, ok,
  Result,
}
use rea_time_chat_g_rpc.Errors.{Status}
use rea_time_chat_g_rpc.Normalize.{email}
use rea_time_chat_g_rpc.Auth.{new_jwt_manager, generate_token, hash_password, check_password}
use rea_time_chat_g_rpc.Auth.Samples.{toy, toy-IsTokenLib, verifies, bob_token}
use rea_time_chat_g_rpc.Data.Models.{User}
use rea_time_chat_g_rpc.Data.Users.{by_email, meets, create_user, get_user_by_email, new_user}
use rea_time_chat_g_rpc.Data.Users.Accounts.{document}
use rea_time_chat_g_rpc.Data.Samples.{accounts, accounts-IsUsersColl}
use rea_time_chat_g_rpc.Api.Stores.{users_store}
use rea_time_chat_g_rpc.Api.Requests.{RegisterResponse}
use rea_time_chat_g_rpc.Api.Handlers.Accounts.{register, register_response, login, login_response}
use rea_time_chat_g_rpc.Api.Handlers.Accounts.Sessions.{
  IsBcrypt, Opens, register_ok, login_ok, login-register,
}
use rea_time_chat_g_rpc.Api.Samples.{plain, jwt, clock, sign_up, bob_user, answer, log_in, entered}
use rea_time_chat_g_rpc.Samples.{ascii, ascii-IsCaseTable, bob, spaced_bob}

plain-IsBcrypt : IsBcrypt plain
plain-IsBcrypt p h e = ground arith

abbrev registered : Result Status RegisterResponse × List User
registered = register ascii toy plain (users_store ascii accounts) jwt clock sign_up []

program : Unit {0}
unfolding hash_password check_password register register_response login login_response create_user
    get_user_by_email new_user generate_token new_jwt_manager email text_discrete ℕ_discrete lookup
program = tt

registered_ok : registered.0 ≡ ok answer
unfolding program
registered_ok = refl

found : get_user_by_email ascii accounts bob registered.1 ≡ ok bob_user
unfolding program
found = refl

entered_ok :
    login ascii toy plain (users_store ascii accounts) jwt clock log_in (bob_user ∷ []) ≡ ok entered
unfolding program
entered_ok = refl

register_ok_example :
    (u : User) × (registered.1 ≡ document u ∷ [])
    × (u.email ≡ email ascii spaced_bob)
    × (count (meets (by_email (email ascii spaced_bob))) [] ≡ 0)
    × (codes "u" ≡ codes "u")
    × Opens ascii ascii-IsCaseTable toy verifies toy-IsTokenLib plain accounts
        (λ us. us)
        accounts-IsUsersColl
        jwt
        50
        bob_token
        (codes "u")
        (email ascii spaced_bob)
register_ok_example =
    register_ok ascii ascii-IsCaseTable toy verifies toy-IsTokenLib plain accounts (λ us. us)
      accounts-IsUsersColl jwt clock sign_up [] answer 50 registered_ok (omega arith)

login-register_example :
    (login ascii toy plain (users_store ascii accounts) jwt clock log_in registered.1
      ≡ login_response ascii toy plain (users_store ascii accounts) jwt clock bob_user)
    × (codes "u" ≡ codes "u")
unfolding email
login-register_example =
    login-register ascii ascii-IsCaseTable toy verifies toy-IsTokenLib plain accounts (λ us. us)
      accounts-IsUsersColl jwt plain-IsBcrypt clock clock sign_up [] answer bob bob_user
      registered_ok refl found

login_ok_example :
    (u : User) × Has u (bob_user ∷ [])
    × (u.email ≡ bob)
    × (plain.compare_hash_and_password u.password (codes "pw") ≡ none)
    × (codes "u" ≡ codes "u")
    × Opens ascii ascii-IsCaseTable toy verifies toy-IsTokenLib plain accounts
        (λ us. us)
        accounts-IsUsersColl
        jwt
        50
        bob_token
        (codes "u")
        bob
unfolding email
login_ok_example =
    login_ok ascii ascii-IsCaseTable toy verifies toy-IsTokenLib plain accounts (λ us. us)
      accounts-IsUsersColl jwt clock log_in (bob_user ∷ []) entered 50 entered_ok (omega arith)

abbrev again : Result Status RegisterResponse × List User
again = register ascii toy plain (users_store ascii accounts) jwt clock sign_up (bob_user ∷ [])
