-- ===== src/Api/Handlers/Tests.antt =====
-- Chat streams, and a message that misses its recipient.
use rea_time_chat_g_rpc.Base.{
  ℕ, ◌≡◌, ◌≢◌, refl, subst, Option, none, some, List, [], ◌∷◌, arith, codes, text_discrete,
  ℕ_discrete, lookup, insert, is_some, true,
}
use rea_time_chat_g_rpc.Errors.{Status}
use rea_time_chat_g_rpc.Normalize.{email}
use rea_time_chat_g_rpc.Auth.Samples.{bob_claims}
use rea_time_chat_g_rpc.Hub.{ConnectionHub, new_connection_hub, open_row, put, register, unregister}
use rea_time_chat_g_rpc.Hub.Routing.{row-put}
use rea_time_chat_g_rpc.Hub.Invariant.{Inv, new_connection_hub-Inv, register-Inv}
use rea_time_chat_g_rpc.Data.Models.{Message}
use rea_time_chat_g_rpc.Data.Users.{user_exists}
use rea_time_chat_g_rpc.Data.Messages.{save_message, new_message}
use rea_time_chat_g_rpc.Data.Samples.{mailbox}
use rea_time_chat_g_rpc.Api.Html.{escape_string, escape_string-IsInert}
use rea_time_chat_g_rpc.Api.Stores.{users_store, messages_store}
use rea_time_chat_g_rpc.Api.Handlers.Chat.{
  closed, chat_stream, chat_loop, run_deferred, open_conn, close_conn, serve, ack, acknowledge,
  deliver,
}
use rea_time_chat_g_rpc.Api.Handlers.Chat.Routes.{conn?}
use rea_time_chat_g_rpc.Api.Handlers.Chat.Ending.{chat_stream_ends}
use rea_time_chat_g_rpc.Api.Handlers.Chat.Normal.{IsNormal}
use rea_time_chat_g_rpc.Api.Handlers.Chat.Rounds.{IsServed, serve_misses, serve_delivers}
use rea_time_chat_g_rpc.Hub.Samples.{broken, net, carried, net-Log}
use rea_time_chat_g_rpc.Samples.{ascii, bob, spaced_bob}
use rea_time_chat_g_rpc.Api.Handlers.Samples.{
  hex, everyone, deaf, bob_call, rounds, fine, request, stored, hub, takes_all, knows_all,
  normal_request,
}

abbrev chat : Option (Option Status) × Option (ConnectionHub ℕ) × List Message
chat =
    chat_stream hex (users_store ascii everyone) (messages_store ascii mailbox) deaf
      (λ conns. conns) bob_call 4 rounds (some new_connection_hub) []

program : Unit {0}
unfolding serve acknowledge user_exists save_message new_message escape_string email lookup insert
    text_discrete ℕ_discrete register new_connection_hub
program = tt

-- The acknowledgement fails on a broken stream, after the message is stored.
chat_stored : chat.2 ≡ stored ∷ []
unfolding program chat_stream open_conn put open_row chat_loop run_deferred close_conn
chat_stored = refl

goes_on :
    (serve hex
      (users_store ascii everyone)
      (messages_store ascii mailbox)
      fine
      (λ conns. conns)
      bob_claims
      9
      request
      5000000
      6000000
      none
      []).0
    ≡ none
unfolding program deliver
goes_on = refl

hub-Inv : Inv hub
unfolding new_connection_hub
hub-Inv = register-Inv bob 4 new_connection_hub new_connection_hub-Inv (omega arith)

bob_normal : email ascii bob ≡ bob
unfolding email
bob_normal = refl

hub-IsNormal : IsNormal ascii hub
unfolding register new_connection_hub lookup
hub-IsNormal e full = elim (text_discrete bob e) [
  | yes p ↦ subst (λ x. email ascii x ≡ x) p bob_normal
  | no n ↦ absurd (full (ground (arith, row-put {S = ℕ} bob e 1 4 [])))
]

typed : email ascii spaced_bob ≢ spaced_bob
unfolding email
typed = λ e. cc

request-IsServed :
    IsServed ascii hex everyone mailbox fine
      (λ conns. conns)
      bob_claims
      9
      request
      5000000
      6000000
      []
      stored
unfolding program
request-IsServed = (refl, refl, refl, refl, refl, refl, escape_string-IsInert (codes "<hi>"))

abbrev quiet : Option (Option Status) × Option (ConnectionHub ℕ) × List Message
quiet =
    chat_stream hex (users_store ascii everyone) (messages_store ascii mailbox) fine
      (λ conns. conns) bob_call 9 (closed ∷ []) (some hub) []

chat_stream_ends_example : (is_some quiet.0 ≡ true) × (conn? bob 2 quiet.1 ≡ none)
unfolding register new_connection_hub
chat_stream_ends_example =
    chat_stream_ends hex (users_store ascii everyone) (messages_store ascii mailbox) fine
      (λ conns. conns) bob_call bob_claims 9 [] [] closed hub [] refl refl

abbrev quiet_hub : ConnectionHub ℕ
quiet_hub = unregister bob 2 (register bob 9 hub).0

quiet_leaves : quiet.1 ≡ some quiet_hub
unfolding program chat_stream open_conn put open_row chat_loop run_deferred close_conn
quiet_leaves = refl

-- The message is stored, and Bob's stream 4 is left out.
serve_misses_example :
    serve hex
      (users_store ascii everyone)
      (messages_store ascii mailbox)
      fine
      (λ conns. conns)
      bob_claims
      9
      request
      5000000
      6000000
      (some hub)
      []
    ≡ (none, some hub, stored ∷ [])
unfolding save_message new_message escape_string email
serve_misses_example =
    serve_misses ascii hex everyone mailbox fine (λ conns. conns) bob_claims 9 request 5000000
      6000000 hub [] stored hub-Inv hub-IsNormal typed request-IsServed

normal_request-IsServed :
    IsServed ascii hex knows_all takes_all net
      (λ conns. conns)
      bob_claims
      9
      normal_request
      5000000
      6000000
      []
      stored
unfolding program
normal_request-IsServed = (refl, refl, refl, refl, refl, refl, escape_string-IsInert (codes "<hi>"))

-- Stream 9 gets the acknowledgement, and Bob's stream 4 the message.
serve_delivers_example :
    ((serve hex
        (users_store ascii knows_all)
        (messages_store ascii takes_all)
        net
        (λ conns. conns)
        bob_claims
        9
        normal_request
        5000000
        6000000
        (some hub)
        []).0
      ≡ none)
    × (carried
          (serve hex
            (users_store ascii knows_all)
            (messages_store ascii takes_all)
            net
            (λ conns. conns)
            bob_claims
            9
            normal_request
            5000000
            6000000
            (some hub)
            []).2
          4
        ≡ ack hex stored ∷ [])
unfolding program put open_row
serve_delivers_example =
    serve_delivers ascii hex knows_all takes_all net (λ conns. conns) broken net-Log bob_claims 9 4
      normal_request 5000000 6000000 hub [] stored (λ conns p. refl) hub-Inv normal_request-IsServed
