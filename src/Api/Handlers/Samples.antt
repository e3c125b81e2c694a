-- ===== src/Api/Handlers/Samples.antt =====
-- A user with a stream, stores and networks for examples.
use rea_time_chat_g_rpc.Base.{ℕ, none, some, List, [], ◌∷◌, Text, codes, ok, err}
use rea_time_chat_g_rpc.Errors.{eof}
use rea_time_chat_g_rpc.Wire.{StreamSender}
use rea_time_chat_g_rpc.Auth.Samples.{bob_claims}
use rea_time_chat_g_rpc.Hub.{ConnectionHub, new_connection_hub, register}
use rea_time_chat_g_rpc.Data.Models.{Message}
use rea_time_chat_g_rpc.Data.Users.{UsersColl}
use rea_time_chat_g_rpc.Data.Messages.{MessagesColl}
use rea_time_chat_g_rpc.Api.Requests.{ChatStreamRequest}
use rea_time_chat_g_rpc.Api.Interceptors.{Call}
use rea_time_chat_g_rpc.Api.Handlers.Chat.{Recv, received, closed}
use rea_time_chat_g_rpc.Hub.Samples.{Wires}
use rea_time_chat_g_rpc.Samples.{bob, spaced_bob}

abbrev pub hex : ℕ → Text
hex id = codes "m"

-- A world that holds the messages, where every user exists, and on which every stream is broken.
abbrev pub everyone : UsersColl (List Message)
everyone = record {
  insert_one = λ u w. (err eof, w);
  find_one = λ f w. err eof;
  count_documents = λ f w. ok 1;
}

abbrev pub deaf : StreamSender ℕ (List Message)
deaf = record { send = λ s r w. (some eof, w) }

abbrev pub bob_call : Call
bob_call = record {
  full_method = codes "/chat.v1.ChatService/ChatStream";
  metadata = none;
  claims = some bob_claims;
}

abbrev pub rounds : List Recv
rounds = received (record { to_email = bob; content = codes "<hi>" }) 5000000 6000000 ∷ closed ∷ []

-- A network on which every stream carries what it is given.
abbrev pub fine : StreamSender ℕ (List Message)
fine = record { send = λ s r w. (none, w) }

abbrev pub request : ChatStreamRequest
request = record { to_email = spaced_bob; content = codes "<hi>" }

abbrev pub stored : Message
stored = record {
  id = 0;
  from_email = bob;
  to_email = bob;
  content = codes "&lt;hi&gt;";
  sent_at = 5000000;
  created_at = 6000000;
}

-- Bob is connected, under his normalized address.
abbrev pub hub : ConnectionHub ℕ
hub = (register bob 4 new_connection_hub).0

-- Over the log of the wires, a mailbox that takes every message.
abbrev pub takes_all : MessagesColl Wires Unit
takes_all = record {
  insert_one = λ m w. (ok 0, w);
  find = λ f o w. err eof;
  aggregate = λ p w. err eof;
  all_messages = λ c w. err eof;
  all_documents = λ c w. err eof;
}

abbrev pub knows_all : UsersColl Wires
knows_all = record {
  insert_one = λ u w. (err eof, w);
  find_one = λ f w. err eof;
  count_documents = λ f w. ok 1;
}

abbrev pub normal_request : ChatStreamRequest
normal_request = record { to_email = bob; content = codes "<hi>" }
