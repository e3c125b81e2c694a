-- ===== src/Api/Server/Letters.antt =====
-- Bob writes to himself and reads it back.
use rea_time_chat_g_rpc.Base.{
  ℕ, ◌≡◌, refl, ap, ◌⊎◌, none, some, Option, List, [], ◌∷◌, ◌++◌, arith, codes, ok, Result,
  text_discrete,
}
use rea_time_chat_g_rpc.Errors.{Status}
use rea_time_chat_g_rpc.Normalize.{email}
use rea_time_chat_g_rpc.Hub.{ConnectionHub}
use rea_time_chat_g_rpc.Auth.Samples.{toy}
use rea_time_chat_g_rpc.Data.Models.{Message}
use rea_time_chat_g_rpc.Data.Messages.{
  get_message_history, reverse_messages, swap_loop, history_filter,
}
use rea_time_chat_g_rpc.Api.Requests.{GetHistoryRequest, GetHistoryResponse}
use rea_time_chat_g_rpc.Api.Interceptors.Access.{Carries, Carries-auth_stream}
use rea_time_chat_g_rpc.Api.Handlers.Streaming.{returned, get_history, send_items}
use rea_time_chat_g_rpc.Api.Handlers.Streaming.Sending.{Shows}
use rea_time_chat_g_rpc.Api.Handlers.Chat.{Recv, received}
use rea_time_chat_g_rpc.Api.Handlers.Chat.Follows.{Follow, IsFine, asked}
use rea_time_chat_g_rpc.Api.Service as Service
use rea_time_chat_g_rpc.Api.Service.{stream_full_method, get_history_handler}
use rea_time_chat_g_rpc.Api.Service.Chain.{streams_closed}
use rea_time_chat_g_rpc.Api.Server.{refused, serve_get_history, serve_chat_stream}
use rea_time_chat_g_rpc.Api.Samples.{jwt}
use rea_time_chat_g_rpc.Samples.{ascii, bob, spaced_bob}
use rea_time_chat_g_rpc.Base.{◌≤◌, ◌≢◌, All, Has, subst, sym, keep, length}
use rea_time_chat_g_rpc.Api.Html.{escape_string}
use rea_time_chat_g_rpc.Data.Messages.{save_message, new_message}
use rea_time_chat_g_rpc.Data.Messages.History.{exchanged}
use rea_time_chat_g_rpc.Data.Users.{user_exists}
use rea_time_chat_g_rpc.Api.Service.{chat_stream_handler}
use rea_time_chat_g_rpc.Api.Handlers.Chat.{
  chat_stream, chat_loop, serve, acknowledge, deliver, open_conn, run_deferred, close_conn,
}
use rea_time_chat_g_rpc.Api.Server.Exchange.{chat_reads_back}
use rea_time_chat_g_rpc.Api.Server.Conversations.{
  World, messages, everyone, fine, to_client, hex, with_token, history_call, claims, server,
  chat_call, messages-IsMessagesColl, messages-Stores, carried,
}

abbrev self_rounds : List Recv
self_rounds =
    received (record { to_email = spaced_bob; content = codes "<hi>" }) 5000000 6000000 ∷ []

abbrev out : Option (Option Status) × (Option (ConnectionHub ℕ) × World)
out =
    serve_chat_stream ascii toy hex server fine (λ conns. conns) 4 self_rounds 50 with_token
      (none, ([], []))

abbrev stored : Message
stored = record {
  id = 0;
  from_email = bob;
  to_email = bob;
  content = codes "&lt;hi&gt;";
  sent_at = 5000000;
  created_at = 6000000;
}

chat_carried : Carries ascii toy jwt 50 chat_call claims
chat_carried = carried

out_world : out.1.1 ≡ (stored ∷ [], [])
unfolding serve_chat_stream chat_stream_handler chat_stream chat_loop serve acknowledge deliver
    open_conn run_deferred close_conn user_exists save_message new_message escape_string email
    text_discrete
out_world =
    ap (λ x. x.1.1)
      (Carries-auth_stream ascii toy jwt (λ s. some (some s)) 50 chat_call claims
        (λ call (k, v).
          let (end, k', v') =
            chat_stream hex server.users server.msgs fine (λ conns. conns) call 4 self_rounds k v in
          (end, (k', v')))
        (none, ([], [])) (streams_closed Service.chat_stream) chat_carried)

abbrev ask_self : World → Result Status GetHistoryRequest × World
ask_self w = (ok (record { with_email = spaced_bob }), w)

ended_well :
    (serve_get_history ascii toy hex server to_client 50 with_token ask_self out.1.1).0
    ≡ returned none
unfolding serve_get_history get_history_handler get_history send_items get_message_history
    reverse_messages swap_loop history_filter email text_discrete
ended_well =
    subst
      (λ w.
        (serve_get_history ascii toy hex server to_client 50 with_token ask_self w).0
        ≡ returned none)
      (sym out_world)
      (ap (λ x. x.0)
        (Carries-auth_stream ascii toy jwt refused 50 history_call claims
          (λ call.
            get_history_handler refused (get_history hex server.msgs to_client) call ask_self)
          (stored ∷ [], []) (streams_closed Service.get_history) carried))

few : length (keep (exchanged ascii bob bob) (out.1.1).0) ≤ 100
unfolding email text_discrete
few = subst (λ w. length (keep (exchanged ascii bob bob) w.0) ≤ 100) (sym out_world) (omega arith)

same_address : email ascii spaced_bob ≡ email ascii bob
unfolding email
same_address = refl

chat_reads_back_example :
    (ms : List Message) × (out.1.1.0 ≡ [] ++ ms)
    × Follow ascii claims self_rounds ms
    × (IsFine out.0 → length ms ≡ asked self_rounds)
    × All
        (λ m.
          (m.to_email ≢ email ascii bob)
          ⊎ ((r : GetHistoryResponse) × Has r
                (serve_get_history ascii toy hex server to_client 50 with_token ask_self
                  out.1.1).1.1
              × Shows hex m r))
        ms
chat_reads_back_example =
    chat_reads_back ascii toy hex everyone messages jwt none (λ w. w.0) messages-IsMessagesColl fine
      (λ conns. conns) messages-Stores 4 self_rounds 50 50 with_token with_token none ([], [])
      to_client (λ w. w.1) ask_self claims claims (record { with_email = spaced_bob })
      (λ r w e. refl) (λ w. refl) chat_carried carried refl same_address few ended_well
