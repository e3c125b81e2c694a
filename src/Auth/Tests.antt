-- ===== src/Auth/Tests.antt =====
-- Managers made from a map of two keys, and a token that is issued and verified.
use rea_time_chat_g_rpc.Base.{
  ℕ, ◌≡◌, refl, inr, some, List, [], ◌∷◌, arith, Text, codes, text_discrete, ℕ_discrete, lookup,
  insert, ok,
}
use rea_time_chat_g_rpc.Normalize.{email}
use rea_time_chat_g_rpc.Auth.{
  JwtManager, new_jwt_manager, copy_keys, pick_kid, first_kid, new_jwt_manager_from_keys,
  generate_token, verify_token, key_func, key_of_kid, active_key,
}
use rea_time_chat_g_rpc.Auth.Keys.{issued_claims, with_expiry, generate_token-has_key}
use rea_time_chat_g_rpc.Auth.Tokens.{
  IsAccepted, verify_token-IsAccepted, verify_token-generate_token,
}
use rea_time_chat_g_rpc.Auth.Samples.{toy, toy-IsTokenLib, verifies, secret, bob_token, bob_claims}
use rea_time_chat_g_rpc.Samples.{ascii, ascii-IsCaseTable, bob, spaced_bob}

-- A map with the key that is going out of use and the new one.
abbrev key_map : List (Text × Text)
key_map = (codes "0", codes "old") ∷ (codes "1", secret) ∷ []

abbrev in_order : List (Text × Text) → List (Text × Text)
in_order m = m

abbrev m0 : JwtManager
m0 = new_jwt_manager secret 10

abbrev m1 : JwtManager
m1 = new_jwt_manager_from_keys in_order key_map (codes "0") 10

program : Unit {0}
unfolding new_jwt_manager copy_keys pick_kid first_kid new_jwt_manager_from_keys generate_token
    verify_token key_func key_of_kid active_key lookup insert text_discrete ℕ_discrete email
program = tt

generate_token-has_key_example :
    (key : Text) × (lookup text_discrete m1.active key_map ≡ some key)
    × (generate_token ascii toy m1 1 bob 100 11
        ≡ with_expiry 110 (toy.sign_hs256 m1.active (issued_claims ascii toy m1 1 bob 100 11) key))
unfolding lookup text_discrete ℕ_discrete new_jwt_manager_from_keys
generate_token-has_key_example =
    generate_token-has_key in_order (λ m u. (u, λ k. refl)) ascii toy key_map (codes "0")
      (codes "1") 10 1 bob 100 11 (refl, (refl, tt)) (inr (λ e. cc)) (λ e. cc)

issued : generate_token ascii toy m0 1 spaced_bob 100 11 ≡ ok (bob_token, 110)
unfolding program
issued = refl

verified : verify_token ascii toy m0 50 bob_token ≡ ok bob_claims
unfolding program
verified = refl

verify_token-IsAccepted_example : IsAccepted ascii toy verifies m0 50 bob_token bob_claims
verify_token-IsAccepted_example =
    verify_token-IsAccepted ascii ascii-IsCaseTable toy verifies toy-IsTokenLib m0 50 bob_token
      bob_claims verified

-- A token of the manager with one key is read by the one with two.
verify_token-generate_token_example :
    (◌≡◌ {A = ℕ} 110 110) × (verify_token ascii toy m1 50 bob_token ≡ ok bob_claims)
unfolding program
verify_token-generate_token_example =
    verify_token-generate_token ascii ascii-IsCaseTable toy verifies toy-IsTokenLib m0 m1 1
      spaced_bob 100 11 50 110 bob_token issued refl (omega arith)
