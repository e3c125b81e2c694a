-- ===== src/Api/Handlers/Streaming/Tests.antt =====
-- A history that is sent, and a list of chats that panics.
use rea_time_chat_g_rpc.Base.{
  ℕ, ◌≡◌, refl, ap, subst, inl, inr, arith, Has, All, none, some, List, [], ◌∷◌, ◌++◌, Text, codes,
  pos, ok, err,
}
use rea_time_chat_g_rpc.Errors.{eof}
use rea_time_chat_g_rpc.Auth.Samples.{bob_claims}
use rea_time_chat_g_rpc.Data.Models.{Message}
use rea_time_chat_g_rpc.Data.Bson.{Bson, Entries, nil, entry, entry_at}
use rea_time_chat_g_rpc.Data.Messages.{Field, Expr, Stage, recent_pipeline, MessagesColl}
use rea_time_chat_g_rpc.Api.Stores.{MessagesStore, messages_store}
use rea_time_chat_g_rpc.Api.Requests.{
  GetHistoryRequest, GetHistoryResponse, ListChatsRequest, ListChatsResponse,
}
use rea_time_chat_g_rpc.Api.Interceptors.{Call}
use rea_time_chat_g_rpc.Api.Handlers.Streaming.{ServerStream, panicked, list_chats}
use rea_time_chat_g_rpc.Api.Handlers.Streaming.Panics.{list_chats_panics}
use rea_time_chat_g_rpc.Data.Messages.Dates.{DecodesDates}
use rea_time_chat_g_rpc.Samples.{ascii, ann, bob}

abbrev hex : ℕ → Text
hex id = codes "m"

abbrev bob_call : Call
bob_call = record {
  full_method = codes "/chat.v1.ChatService/ChatStream";
  metadata = none;
  claims = some bob_claims;
}

abbrev letter : Message
letter = record {
  id = 0;
  from_email = bob;
  to_email = ann;
  content = codes "&lt;hi&gt;";
  sent_at = 5;
  created_at = 6;
}

-- A world of what was sent.
abbrev to_client : {R : Type 0} → ServerStream R (List R)
to_client = record { send = λ r w. (none, w ++ r ∷ []) }

-- A mailbox over that world: Bob once wrote to Ann.
abbrev archive : {R : Type 0} → MessagesColl (List R) Unit
archive = record {
  insert_one = λ m w. (err eof, w);
  find = λ f o w. ok tt;
  aggregate = λ p w. ok tt;
  all_messages = λ c w. ok (letter ∷ []);
  all_documents = λ c w. ok (
      entry (codes "_id") (Bson.doc (entry (codes "partner") (Bson.str ann) nil)) (
        entry (codes "last_message") (Bson.str (codes "hi"))
          (entry (codes "last_message_at") (Bson.time 5) nil))
      ∷ []);
}

abbrev store : MessagesStore (List GetHistoryResponse)
store = messages_store ascii archive

abbrev history_request : GetHistoryRequest
history_request = record { with_email = ann }

abbrev chats_request : ListChatsRequest
chats_request = record { limit = pos 0 }

-- A driver that answers an aggregation with one document, in which each accumulator is a date.
abbrev keys : List (Text × Expr) → List Text
keys [] = []
keys ((k, x) ∷ accs) = k ∷ keys accs

abbrev names : List Stage → List Text
names (Stage.match f ∷ Stage.group k key accs ∷ stages) = keys accs
names _ = []

abbrev dated : List Text → Entries
dated [] = nil
dated (k ∷ ks) = entry k (Bson.date_time 5) (dated ks)

abbrev dating : MessagesColl (List ListChatsResponse) (List Text)
dating = record {
  insert_one = λ m w. (err eof, w);
  find = λ f o w. err eof;
  aggregate = λ stages w. ok (names stages);
  all_messages = λ c w. err eof;
  all_documents = λ c w. ok (dated c ∷ []);
}

entry_at-dated :
    (accs : List (Text × Expr)) (name : Text) (x : Expr)
    → Has (name, x) accs
    → entry_at name (dated (keys accs)) ≡ some (Bson.date_time 5)
unfolding entry_at
entry_at-dated [] name x h = absurd h
entry_at-dated ((k, y) ∷ accs) name x (inl e) = ground (arith, ap (λ z. z.0) e)
entry_at-dated ((k, y) ∷ accs) name x (inr h) = ground (arith, entry_at-dated accs name x h)

dating-DecodesDates : DecodesDates dating
dating-DecodesDates f k key accs s o n name w c rs found read h =
    let at_name = entry_at-dated accs name (Expr.field Field.sent_at) h in
    let is_rs : dated (keys accs) ∷ [] ≡ rs = ground arith in
    subst (All (λ r. (at : ℕ) × (entry_at name r ≡ some (Bson.date_time at)))) is_rs
      ((5, at_name), tt)

list_chats_panics_example :
    list_chats hex (messages_store ascii dating) to_client bob_call chats_request []
    ≡ (panicked, [])
unfolding recent_pipeline
list_chats_panics_example =
    list_chats_panics ascii hex dating dating-DecodesDates to_client bob_call chats_request []
      bob_claims (codes "last_message" ∷ codes "last_message_at" ∷ [])
      (dated (codes "last_message" ∷ codes "last_message_at" ∷ [])) [] refl refl refl
