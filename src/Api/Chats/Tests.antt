-- ===== src/Api/Chats/Tests.antt =====
-- Two handlers of Bob: the first one has a round and ends, while the second one goes on.
use rea_time_chat_g_rpc.Base.{
  ℕ, ◌≡◌, refl, some, none, true, List, [], ◌∷◌, Text, codes, ok, err, lookup, insert, erase,
  text_discrete, ℕ_discrete,
}
use rea_time_chat_g_rpc.Errors.{eof}
use rea_time_chat_g_rpc.Wire.{StreamSender}
use rea_time_chat_g_rpc.Auth.Samples.{bob_claims}
use rea_time_chat_g_rpc.Hub.{
  new_connection_hub, register, unregister, close_row, open_row, put, conn,
}
use rea_time_chat_g_rpc.Api.Stores.{UsersStore, MessagesStore}
use rea_time_chat_g_rpc.Api.Interceptors.{Call}
use rea_time_chat_g_rpc.Api.Handlers.Chat.{Recv, received, closed, open_conn, close_conn}
use rea_time_chat_g_rpc.Api.Handlers.Chat.Routes.{conn?}
use rea_time_chat_g_rpc.Api.Chats.{Session, Chats, opened, ended, Reach, here, next, opens, ends}
use rea_time_chat_g_rpc.Api.Chats.Backed.{IsOpen, new_chats, connections_run}
use rea_time_chat_g_rpc.Base.{◌<◌, false, get_elem?, arith}
use rea_time_chat_g_rpc.Hub.{int64_mod}
use rea_time_chat_g_rpc.Api.Chats.Live.{steps, handlers_connected}
use rea_time_chat_g_rpc.Samples.{bob}

abbrev hex : ℕ → Text
hex id = codes "m"

abbrev users : UsersStore ℕ
users = record {
  create_user = λ mail hashed now later w. (err eof, w);
  get_user_by_email = λ mail w. err eof;
  user_exists = λ mail w. ok true;
}

abbrev msgs : MessagesStore ℕ
msgs = record {
  save_message = λ from to text at now w. (err eof, w);
  get_recent_chats = λ mail n w. some (err eof);
  get_message_history = λ user1 user2 n w. err eof;
}

abbrev net : StreamSender ℕ ℕ
net = record { send = λ s r w. (none, w) }

abbrev bob_call : Call
bob_call = record {
  full_method = codes "/chat.v1.ChatService/ChatStream";
  metadata = none;
  claims = some bob_claims;
}

abbrev fresh : Chats ℕ ℕ
fresh = new_chats hex users msgs net (λ c. c) 0

abbrev both : Chats ℕ ℕ
both =
    opened hex users msgs net (λ c. c) bob_claims 9
      (opened hex users msgs net (λ c. c) bob_claims 4 fresh)

abbrev first_session : Session ℕ
first_session = record { claims = bob_claims; stream = 4; conn_id = 1 }

abbrev one_left : Chats ℕ ℕ
one_left = ended hex users msgs net (λ c. c) 1 first_session both

program : Unit {0}
unfolding opened ended open_conn close_conn register open_row put new_connection_hub lookup insert
    text_discrete ℕ_discrete unregister close_row conn erase
program = tt

one_left_reached : Reach hex users msgs net (λ c. c) fresh one_left
unfolding program
one_left_reached =
    next (next (next here (opens bob_call bob_claims 4 refl)) (opens bob_call bob_claims 9 refl))
      (ends 1 first_session closed refl refl)

still_there : conn? bob 2 one_left.hub ≡ some 9
unfolding program
still_there = refl

connections_run_example : IsOpen bob 2 9 one_left.running
connections_run_example =
    connections_run hex users msgs net (λ c. c) 0 one_left one_left_reached bob 2 9 still_there

abbrev rounds : List Recv
rounds = received (record { to_email = bob; content = codes "hi" }) 5 6 ∷ []

abbrev second_session : Session ℕ
second_session = record { claims = bob_claims; stream = 9; conn_id = 2 }

second_found : get_elem? one_left.running 0 ≡ some second_session
unfolding program
second_found = refl

few_steps : steps hex users msgs net (λ c. c) one_left_reached < int64_mod
unfolding steps one_left_reached
few_steps = omega arith

handlers_connected_example : conn? bob 2 one_left.hub ≡ some 9
handlers_connected_example =
    handlers_connected hex users msgs net (λ c. c) (λ s. false) (λ s r w. refl) (λ conns p. refl) 0
      one_left one_left_reached 0 second_session few_steps second_found refl
