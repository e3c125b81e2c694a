-- ===== src/Api/Server/Conversations.antt =====
-- A history that is sent behind the interceptor, and a chat stream with a token.
use rea_time_chat_g_rpc.Base.{
  ℕ, ◌≡◌, refl, ap, ◌⊎◌, none, some, Option, List, [], ◌∷◌, ◌++◌, arith, Text, codes, ok, err,
  Result, text_discrete, lookup,
}
use rea_time_chat_g_rpc.Errors.{Status, eof, unauthenticated}
use rea_time_chat_g_rpc.Normalize.{email, trim_space}
use rea_time_chat_g_rpc.Wire.{StreamSender}
use rea_time_chat_g_rpc.Auth.{Claims, generate_token, new_jwt_manager}
use rea_time_chat_g_rpc.Hub.{ConnectionHub}
use rea_time_chat_g_rpc.Auth.Tokens.{verify_token-generate_token}
use rea_time_chat_g_rpc.Auth.Samples.{toy, toy-IsTokenLib, verifies, bob_token}
use rea_time_chat_g_rpc.Data.Models.{Message}
use rea_time_chat_g_rpc.Data.Users.{UsersColl}
use rea_time_chat_g_rpc.Data.Messages.{
  MessagesColl, get_message_history, reverse_messages, swap_loop, history_filter,
}
use rea_time_chat_g_rpc.Data.Messages.History.{IsMessagesColl, IsHistory}
use rea_time_chat_g_rpc.Data.Samples.{mailbox, mailbox-IsMessagesColl}
use rea_time_chat_g_rpc.Api.Requests.{GetHistoryRequest, GetHistoryResponse}
use rea_time_chat_g_rpc.Api.Interceptors.{Call, get_values}
use rea_time_chat_g_rpc.Api.Interceptors.Access.{Carries, Carries-auth_stream, bearer_token-issued}
use rea_time_chat_g_rpc.Api.Handlers.Streaming.{ServerStream, returned, get_history, send_items}
use rea_time_chat_g_rpc.Base.{length}
use rea_time_chat_g_rpc.Api.Handlers.Streaming.Sending.{AllShown}
use rea_time_chat_g_rpc.Api.Handlers.Chat.{Recv, received, closed}
use rea_time_chat_g_rpc.Api.Handlers.Chat.Follows.{Stores, Follow, IsFine, asked}
use rea_time_chat_g_rpc.Api.Service as Service
use rea_time_chat_g_rpc.Api.Service.{stream_full_method, get_history_handler}
use rea_time_chat_g_rpc.Api.Service.Chain.{streams_closed}
use rea_time_chat_g_rpc.Api.Stores.{users_store, messages_store}
use rea_time_chat_g_rpc.Api.Server.{
  Server, new_server, refused, serve_get_history, serve_chat_stream,
}
use rea_time_chat_g_rpc.Api.Server.Streams.{get_history_answers, chat_messages_authentic}
use rea_time_chat_g_rpc.Api.Samples.{jwt}
use rea_time_chat_g_rpc.Samples.{ascii, ascii-IsCaseTable, ann, bob, spaced_bob}

-- The world holds the messages and what the client was sent.
abbrev pub World : Type 0
World = List Message × List GetHistoryResponse

abbrev pub messages : MessagesColl World (List Message)
messages = record {
  insert_one = λ m w. let (r, ms) = mailbox.insert_one m w.0 in (r, (ms, w.1));
  find = λ f o w. mailbox.find f o w.0;
  aggregate = λ p w. err eof;
  all_messages = λ c w. ok c;
  all_documents = λ c w. err eof;
}

pub messages-IsMessagesColl : IsMessagesColl messages (λ w. w.0)
messages-IsMessagesColl = record {
  insert_ok = λ m w id e. mailbox-IsMessagesColl.insert_ok m w.0 id e;
  find_ok = λ f n w c ms e g. mailbox-IsMessagesColl.find_ok f n w.0 c ms e g;
}

abbrev pub everyone : UsersColl World
everyone = record {
  insert_one = λ u w. (err eof, w);
  find_one = λ f w. err eof;
  count_documents = λ f w. ok 1;
}

abbrev pub fine : StreamSender ℕ World
fine = record { send = λ s r w. (none, w) }

pub messages-Stores : Stores messages (λ w. w.0) fine
messages-Stores = record { insert_err = λ m w e f. absurd (ground arith); sends = λ s resp w. refl }

abbrev pub to_client : ServerStream GetHistoryResponse World
to_client = record { send = λ r w. (none, (w.0, w.1 ++ r ∷ [])) }

abbrev letter : Message
letter = record {
  id = 0;
  from_email = bob;
  to_email = ann;
  content = codes "hi";
  sent_at = 5;
  created_at = 6;
}

abbrev pub hex : ℕ → Text
hex id = codes "m"

abbrev pub with_token : Call
with_token = record {
  full_method = [];
  metadata = some ((codes "authorization", (codes "Bearer " ++ bob_token) ∷ []) ∷ []);
  claims = none;
}

abbrev pub history_call : Call
history_call = record with_token { full_method = stream_full_method Service.get_history }

abbrev ask : World → Result Status GetHistoryRequest × World
ask w = (ok (record { with_email = ann }), w)

abbrev pub claims : Claims
claims = record { user_id = codes "u"; email = bob; expires_at = some 110; issued_at = some 11 }

issued_ok : generate_token ascii toy jwt 1 spaced_bob 100 11 ≡ ok (bob_token, 110)
unfolding generate_token new_jwt_manager lookup text_discrete email
issued_ok = refl

pub carried : Carries ascii toy jwt 50 history_call claims
unfolding get_values trim_space lookup text_discrete email
carried = (
  bob_token,
  bearer_token-issued ((codes "authorization", (codes "Bearer " ++ bob_token) ∷ []) ∷ []) bob_token
      refl refl (λ e. cc),
  (verify_token-generate_token ascii ascii-IsCaseTable toy verifies toy-IsTokenLib jwt jwt 1
      spaced_bob 100 11 50 110 bob_token issued_ok refl (omega arith)).1,
)

abbrev pub server : Server World ℕ
server = new_server (users_store ascii everyone) (messages_store ascii messages) jwt none

ended_well :
    (serve_get_history ascii toy hex server to_client 50 with_token ask (letter ∷ [], [])).0
    ≡ returned none
unfolding serve_get_history get_history_handler get_history send_items get_message_history
    reverse_messages swap_loop history_filter email text_discrete
ended_well =
    ap (λ x. x.0)
      (Carries-auth_stream ascii toy jwt refused 50 history_call claims
        (λ call. get_history_handler refused (get_history hex server.msgs to_client) call ask)
        (letter ∷ [], []) (streams_closed Service.get_history) carried)

get_history_answers_example :
    (c : Claims) × Carries ascii toy jwt 50 history_call c
    × (req : GetHistoryRequest) × ((ask (letter ∷ [], [])).0 ≡ ok req)
    × (ms : List Message) × IsHistory ascii messages
        (λ w. w.0)
        messages-IsMessagesColl
        c.email
        req.with_email
        99
        (letter ∷ [], [])
        ms
    × (rs : List GetHistoryResponse) × ((serve_get_history ascii toy hex server to_client 50
          with_token ask
          (letter ∷ [], [])).1.1
        ≡ rs)
    × AllShown hex ms rs
get_history_answers_example =
    get_history_answers ascii toy hex (users_store ascii everyone) messages jwt none (λ w. w.0)
      messages-IsMessagesColl to_client (λ w. w.1) 50 with_token ask (letter ∷ [], [])
      (λ r w e. refl) ended_well

abbrev pub chat_call : Call
chat_call = record with_token { full_method = stream_full_method Service.chat_stream }

abbrev rounds : List Recv
rounds = received (record { to_email = ann; content = codes "<hi>" }) 5 6 ∷ closed ∷ []

abbrev chat_out : Option (Option Status) × (Option (ConnectionHub ℕ) × World)
chat_out =
    serve_chat_stream ascii toy hex server fine (λ conns. conns) 4 rounds 50 with_token
      (none, (letter ∷ [], []))

chat_messages_authentic_example :
    ((c : Claims) × Carries ascii toy jwt 50 chat_call c
      × (ms : List Message) × (chat_out.1.1.0 ≡ letter ∷ ms)
      × Follow ascii c rounds ms
      × (IsFine chat_out.0 → length ms ≡ asked rounds))
    ⊎ ((e : Status) × (e.code ≡ unauthenticated)
        × (chat_out ≡ (some (some e), (none, (letter ∷ [], [])))))
chat_messages_authentic_example =
    chat_messages_authentic ascii toy hex everyone messages jwt none (λ w. w.0)
      messages-IsMessagesColl fine (λ conns. conns) messages-Stores 4 rounds 50 with_token none
      (letter ∷ [], [])
