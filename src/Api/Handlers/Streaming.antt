-- ===== src/Api/Handlers/Streaming.antt =====
-- `ListChats` and `GetHistory` of cmd/api/handlers.go: a list is read and sent item by item.
pub mod Sending
pub mod Panics
mod Tests
use rea_time_chat_g_rpc.Base.{
  ℕ, zero, suc, Option, none, some, List, [], ◌∷◌, Text, codes, ℤ, pos, negsuc, ok, err,
}
use rea_time_chat_g_rpc.Errors.{Error, internal, unauthenticated, Status}
use rea_time_chat_g_rpc.Data.Models.{Message, ChatPartner}
use rea_time_chat_g_rpc.Api.Stores.{MessagesStore}
use rea_time_chat_g_rpc.Api.Requests.{
  ListChatsRequest, ListChatsResponse, GetHistoryRequest, GetHistoryResponse,
}
use rea_time_chat_g_rpc.Api.Interceptors.{Call, get_claims_from_context}
use rea_time_chat_g_rpc.Api.Handlers.Accounts.{fail_with}

-- `stream.Send` of a response: its effect on the world and its error.
pub record ServerStream (R W : Type 0) : Type 0 where
  pub send : R → W → Option Error × W

-- How a handler ends: it returns nil or a status, or a type assertion panics.
pub data Ending : Type 0 where
  returned : Option Status → Ending
  panicked : Ending

-- The loop over the items, with the format of its error.
unfoldable pub send_items :
    {A R W : Type 0} → ServerStream R W → (A → R) → Text → List A → W → Ending × W
send_items stream response format [] w = (returned none, w)
send_items stream response format (a ∷ as_) w =
    let (failed, w') = stream.send (response a) w in
    let rest = send_items stream response format as_ w' in
    elim failed [
      | some e ↦ (returned (some (fail_with internal format (some e))), w')
      | none ↦ rest
    ]

pub partner_response : ChatPartner → ListChatsResponse
partner_response p = record {
  email = p.email;
  last_message = p.last_message;
  last_message_at = p.last_message_time;
}

-- `if limit == 0 { limit = 50 }`
pub chats_limit : ℤ → ℤ
chats_limit (pos zero) = pos 50
chats_limit (pos (suc n)) = pos (suc n)
chats_limit (negsuc n) = negsuc n

abbrev pub missing_claims : Status
missing_claims = fail_with unauthenticated (codes "missing auth claims") none

module _ (hex : ℕ → Text) {W : Type 0} (msgs : MessagesStore W) where
  pub list_chats : ServerStream ListChatsResponse W → Call → ListChatsRequest → W → Ending × W
  list_chats stream call req w = elim (get_claims_from_context call) [
    | none ↦ (returned (some missing_claims), w)
    | some claims ↦ elim (msgs.get_recent_chats claims.email (chats_limit req.limit) w) [
      | none ↦ (panicked, w)
      | some result ↦ elim result [
        | err e ↦ (
          returned (some (fail_with internal (codes "failed to read recent chats: %v") (some e))),
          w,
        )
        | ok partners ↦
            send_items stream partner_response (codes "failed to send partner: %v") partners w
      ]
    ]
  ]

  pub message_response : Message → GetHistoryResponse
  message_response m = record {
    msg_id = hex m.id;
    from_email = m.from_email;
    to_email = m.to_email;
    content = m.content;
    sent_at = m.sent_at;
  }

  unfoldable pub get_history :
      ServerStream GetHistoryResponse W → Call → GetHistoryRequest → W → Ending × W
  get_history stream call req w = elim (get_claims_from_context call) [
    | none ↦ (returned (some missing_claims), w)
    | some claims ↦ elim (msgs.get_message_history claims.email req.with_email (pos 100) w) [
      | err e ↦
          (returned (some (fail_with internal (codes "failed to get history: %v") (some e))), w)
      | ok ms ↦ send_items stream message_response (codes "failed to send message: %v") ms w
    ]
  ]
