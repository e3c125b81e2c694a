-- ===== src/Api/Handlers/Streaming/Panics.antt =====
-- `ListChats` where there is a chat to send.
use rea_time_chat_g_rpc.Base.{ℕ, ◌≡◌, some, List, ◌∷◌, arith, ok, Text}
use rea_time_chat_g_rpc.Normalize.{CaseTable, email}
use rea_time_chat_g_rpc.Auth.{Claims}
use rea_time_chat_g_rpc.Data.Bson.{Entries}
use rea_time_chat_g_rpc.Data.Messages.{MessagesColl, recent_pipeline}
use rea_time_chat_g_rpc.Data.Messages.Dates.{DecodesDates, get_recent_chats_panics}
use rea_time_chat_g_rpc.Api.Stores.{messages_store}
use rea_time_chat_g_rpc.Api.Requests.{ListChatsRequest, ListChatsResponse}
use rea_time_chat_g_rpc.Api.Interceptors.{Call}
use rea_time_chat_g_rpc.Api.Handlers.Streaming.{ServerStream, panicked, chats_limit, list_chats}

-- With a driver that decodes the dates of an aggregation as `bson.DateTime`: if the aggregation for an
-- authenticated caller yields a chat, `ListChats` panics, and has sent nothing.
pub list_chats_panics :
    (t : CaseTable) (hex : ℕ → Text) {W C : Type 0} (msgs : MessagesColl W C)
    → DecodesDates msgs
    → (stream : ServerStream ListChatsResponse W) (call : Call) (req : ListChatsRequest) (w : W)
      (claims : Claims) (c : C) (r : Entries) (rs : List Entries)
    → call.claims ≡ some claims
    → msgs.aggregate (recent_pipeline (email t claims.email) (chats_limit req.limit)) w ≡ ok c
    → msgs.all_documents c w ≡ ok (r ∷ rs)
    → list_chats hex (messages_store t msgs) stream call req w ≡ (panicked, w)
unfolding list_chats
list_chats_panics t hex msgs dates stream call req w claims c r rs auth found read = ground (
  arith,
  get_recent_chats_panics t msgs dates claims.email (chats_limit req.limit) w c r rs found read,
)
