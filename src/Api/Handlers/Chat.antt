-- ===== src/Api/Handlers/Chat.antt =====
-- `ChatStream` of cmd/api/handlers.go: one stream's loop, over what its `Recv` calls yield.
pub mod Routes
pub mod Ending
pub mod Healthy
pub mod Follows
pub mod Journal
pub mod Normal
pub mod Rounds
use rea_time_chat_g_rpc.Base.{
  ℕ, Bool, true, false, Option, none, some, List, [], ◌∷◌, Text, codes, Result, ok, err,
}
use rea_time_chat_g_rpc.Errors.{Error, internal, not_found, Status}
use rea_time_chat_g_rpc.Wire.{ChatStreamResponse, StreamSender}
use rea_time_chat_g_rpc.Auth.{Claims}
use rea_time_chat_g_rpc.Hub.{Conns, ConnectionHub, register, unregister, send_to_user}
use rea_time_chat_g_rpc.Data.Models.{Message}
use rea_time_chat_g_rpc.Api.Html.{escape_string}
use rea_time_chat_g_rpc.Api.Stores.{UsersStore, MessagesStore}
use rea_time_chat_g_rpc.Api.Requests.{ChatStreamRequest}
use rea_time_chat_g_rpc.Api.Interceptors.{Call, get_claims_from_context}
use rea_time_chat_g_rpc.Api.Handlers.Accounts.{fail_with}
use rea_time_chat_g_rpc.Api.Handlers.Streaming.{missing_claims}

-- What `Recv` yields: a request, with the readings of the clock while it is served, the end of the
-- client's messages, or an error.
pub data Recv : Type 0 where
  received : ChatStreamRequest → ℕ → ℕ → Recv
  closed : Recv
  failed : Error → Recv

unfoldable pub ack : (ℕ → Text) → Message → ChatStreamResponse
ack hex saved = record {
  msg_id = hex saved.id;
  from_email = saved.from_email;
  content = saved.content;
  sent_at = saved.sent_at;
}

module _ {S : Type 0} where
  -- `if s.hub != nil { connID = s.hub.Register(…) }`
  unfoldable pub open_conn : Text → S → Option (ConnectionHub S) → Option (ConnectionHub S) × ℕ
  open_conn email stream none = (none, 0)
  open_conn email stream (some h) = let (h', id) = register email stream h in (some h', id)

  -- The deferred `s.hub.Unregister(…)`.
  unfoldable pub close_conn : Text → ℕ → Option (ConnectionHub S) → Option (ConnectionHub S)
  close_conn email id none = none
  close_conn email id (some h) = some (unregister email id h)

module _ (hex : ℕ → Text) {W S : Type 0} (users : UsersStore W) (msgs : MessagesStore W)
    (net : StreamSender S W) (order : Conns S → Conns S) where
  -- `if s.hub != nil { … SendToUser … }`, whose error is only logged.
  unfoldable pub deliver :
      Text → ChatStreamResponse → Option (ConnectionHub S) → W → Option (ConnectionHub S) × W
  deliver to resp none w = (none, w)
  deliver to resp (some h) w = let (_, h', w') = send_to_user net order to resp h w in (some h', w')

  -- From the saved message on; `none` goes on with the loop.
  unfoldable pub acknowledge :
      S
      → Text
      → Message
      → Option (ConnectionHub S)
      → W
      → Option Status × Option (ConnectionHub S) × W
  acknowledge stream to saved hub w =
      let (send_failed, w') = net.send stream (ack hex saved) w in
      elim send_failed [
        | some e ↦ (
          some (fail_with internal (codes "failed to send response to sender: %v") (some e)),
          hub,
          w',
        )
        | none ↦ let (hub', w'') = deliver to (ack hex saved) hub w' in (none, hub', w'')
      ]

  -- One round of the loop, for a request.
  unfoldable pub serve :
      Claims
      → S
      → ChatStreamRequest
      → ℕ
      → ℕ
      → Option (ConnectionHub S)
      → W
      → Option Status × Option (ConnectionHub S) × W
  serve claims stream req at now hub w = elim (users.user_exists req.to_email w) [
    | err e ↦ (some (fail_with internal (codes "failed to verify recipient: %v") (some e)), hub, w)
    | ok exists_ ↦ elim exists_ [
      | false ↦ (some (fail_with not_found (codes "recipient not found") none), hub, w)
      | true ↦
          let (result, w') =
            msgs.save_message claims.email req.to_email (escape_string req.content) at now w in
          elim result [
            | err e ↦
                (some (fail_with internal (codes "failed to save message: %v") (some e)), hub, w')
            | ok saved ↦ acknowledge stream req.to_email saved hub w'
          ]
    ]
  ]

  -- The loop: what the handler returns, or `none` while it waits for more.
  unfoldable pub chat_loop :
      Claims
      → S
      → List Recv
      → Option (ConnectionHub S)
      → W
      → Option (Option Status) × Option (ConnectionHub S) × W
  chat_loop claims stream [] hub w = (none, hub, w)
  chat_loop claims stream (closed ∷ rs) hub w = (some none, hub, w)
  chat_loop claims stream (failed e ∷ rs) hub w =
      (some (some (fail_with internal (codes "receive error: %v") (some e))), hub, w)
  chat_loop claims stream (received req at now ∷ rs) hub w =
      let (stop, hub', w') = serve claims stream req at now hub w in
      let rest = chat_loop claims stream rs hub' w' in
      elim stop [ some s ↦ (some (some s), hub', w') | none ↦ rest ]

  -- What follows the loop: the deferred call runs when the handler returns.
  unfoldable pub run_deferred :
      Text
      → ℕ
      → Option (Option Status) × Option (ConnectionHub S) × W
      → Option (Option Status) × Option (ConnectionHub S) × W
  run_deferred email id (none, hub, w) = (none, hub, w)
  run_deferred email id (some r, hub, w) = (some r, close_conn email id hub, w)

  unfoldable pub chat_stream :
      Call
      → S
      → List Recv
      → Option (ConnectionHub S)
      → W
      → Option (Option Status) × Option (ConnectionHub S) × W
  chat_stream call stream rs hub w = elim (get_claims_from_context call) [
    | none ↦ (some (some missing_claims), hub, w)
    | some claims ↦
        let (hub', id) = open_conn claims.email stream hub in
        run_deferred claims.email id (chat_loop claims stream rs hub' w)
  ]
