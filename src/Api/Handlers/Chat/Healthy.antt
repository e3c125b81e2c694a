-- ===== src/Api/Handlers/Chat/Healthy.antt =====
-- What a round of a chat stream leaves of the other connections.
use rea_time_chat_g_rpc.Base.{
  ℕ, ◌≡◌, refl, inl, inr, Bool, true, false, Option, some, arith, Text, Result-cases, Option-cases,
}
use rea_time_chat_g_rpc.Wire.{ChatStreamResponse, StreamSender}
use rea_time_chat_g_rpc.Auth.{Claims}
use rea_time_chat_g_rpc.Hub.{Conns, ConnectionHub, send_to_user, conn}
use rea_time_chat_g_rpc.Hub.Invariant.{Inv}
use rea_time_chat_g_rpc.Hub.Delivery.{Fates, Visits, conn-send_to_user, send_to_user-Inv}
use rea_time_chat_g_rpc.Hub.Histories.{next_id-send_to_user}
use rea_time_chat_g_rpc.Data.Models.{Message}
use rea_time_chat_g_rpc.Api.Html.{escape_string}
use rea_time_chat_g_rpc.Api.Stores.{UsersStore, MessagesStore}
use rea_time_chat_g_rpc.Api.Requests.{ChatStreamRequest}
use rea_time_chat_g_rpc.Api.Handlers.Chat.{ack, deliver, acknowledge, serve}

module _ {S : Type 0} (broken : S → Bool) where
  -- A later hub, with all connections on streams that are not broken.
  pub record Later (h : ConnectionHub S) (hub : Option (ConnectionHub S)) : Type 0 where
    pub after : ConnectionHub S
    pub is_after : hub ≡ some after
    pub kept : Inv after
    pub issued : after.next_id ≡ h.next_id
    pub healthy :
        (e : Text) (i : ℕ) (s : S)
        → broken s ≡ false
        → conn e i h ≡ some s
        → conn e i after ≡ some s

  same-Later : (h : ConnectionHub S) → Inv h → Later h (some h)
  same-Later h v = record {
    after = h;
    is_after = refl;
    kept = v;
    issued = refl;
    healthy = λ e i s well there. there;
  }

module _ (hex : ℕ → Text) {W S : Type 0} (users : UsersStore W) (msgs : MessagesStore W)
    (net : StreamSender S W) (order : Conns S → Conns S) (broken : S → Bool)
    (fates : Fates net broken) (visits : Visits order) where
  deliver-Later :
      (to : Text) (resp : ChatStreamResponse) (h : ConnectionHub S) (w : W)
      → Inv h
      → Later broken h (deliver hex users msgs net order to resp (some h) w).0
  unfolding deliver
  deliver-Later to resp h w v = record {
    after = (send_to_user net order to resp h w).1;
    is_after = refl;
    kept = send_to_user-Inv net broken fates resp order visits to h w v;
    issued = next_id-send_to_user net order to resp h w v;
    healthy = λ e i s well there.
        ground
          (arith, conn-send_to_user net broken fates resp order visits to e i h w v, there, well);
  }

  acknowledge-Later :
      (stream : S) (to : Text) (saved : Message) (h : ConnectionHub S) (w : W)
      → Inv h
      → Later broken h (acknowledge hex users msgs net order stream to saved (some h) w).1
  unfolding acknowledge
  acknowledge-Later stream to saved h w v =
      elim (Option-cases (net.send stream (ack hex saved) w).0) [
        | inr (_, e) ↦ rw (acknowledge, e) (same-Later broken h v)
        | inl e ↦
            rw (acknowledge, e)
              (deliver-Later to (ack hex saved) h (net.send stream (ack hex saved) w).1 v)
      ]

  pub serve-Later :
      (claims : Claims) (stream : S) (req : ChatStreamRequest) (at now : ℕ) (h : ConnectionHub S)
      (w : W)
      → Inv h
      → Later broken h (serve hex users msgs net order claims stream req at now (some h) w).1
  unfolding serve
  serve-Later claims stream req at now h w v =
      let saving =
        msgs.save_message claims.email req.to_email (escape_string req.content) at now w in
      elim (Result-cases (users.user_exists req.to_email w)) [
        | inr (_, f) ↦ rw (serve, f) (same-Later broken h v)
        | inl (false, f) ↦ rw (serve, f) (same-Later broken h v)
        | inl (true, f) ↦ elim (Result-cases saving.0) [
          | inr (_, g) ↦ rw (serve, f, g) (same-Later broken h v)
          | inl (m, g) ↦ rw (serve, f, g) (acknowledge-Later stream req.to_email m h saving.1 v)
        ]
      ]
