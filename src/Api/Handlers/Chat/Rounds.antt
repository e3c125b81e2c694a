-- ===== src/Api/Handlers/Chat/Rounds.antt =====
-- What one message of a chat stream does before and after it is saved.
use rea_time_chat_g_rpc.Base.{
  Bool, count, replicate, ◌++◌, ℕ, ◌≡◌, ◌≢◌, inl, inr, true, Option, none, some, arith, Text, All,
  ok, Result-cases,
}
use rea_time_chat_g_rpc.Normalize.{CaseTable, email}
use rea_time_chat_g_rpc.Wire.{StreamSender}
use rea_time_chat_g_rpc.Auth.{Claims}
use rea_time_chat_g_rpc.Hub.{Conns, ConnectionHub, row}
use rea_time_chat_g_rpc.Hub.Invariant.{Inv}
use rea_time_chat_g_rpc.Hub.Delivery.{Visits, send_to_user-row}
use rea_time_chat_g_rpc.Hub.Broadcast.{Log, reaches, received-send_to_user}
use rea_time_chat_g_rpc.Data.Models.{Message}
use rea_time_chat_g_rpc.Data.Users.{UsersColl, user_exists}
use rea_time_chat_g_rpc.Data.Messages.{MessagesColl, save_message, new_message}
use rea_time_chat_g_rpc.Api.Html.{IsInert, escape_string, escape_string-IsInert}
use rea_time_chat_g_rpc.Api.Stores.{users_store, messages_store}
use rea_time_chat_g_rpc.Api.Requests.{ChatStreamRequest}
use rea_time_chat_g_rpc.Api.Handlers.Chat.Normal.{IsNormal}
use rea_time_chat_g_rpc.Api.Handlers.Chat.{ack, deliver, acknowledge, serve}

module _ (t : CaseTable) (hex : ℕ → Text) {W C S : Type 0} (users : UsersColl W)
    (msgs : MessagesColl W C) (net : StreamSender S W) (order : Conns S → Conns S) where
  saved_fields :
      (from to text : Text) (at now : ℕ) (w : W) (m : Message)
      → (save_message t msgs from to text at now w).0 ≡ ok m
      → (m.from_email ≡ email t from) × (m.to_email ≡ email t to) × (m.content ≡ text)
  unfolding save_message new_message
  saved_fields from to text at now w m e =
      elim (Result-cases (msgs.insert_one (new_message t from to text at now) w).0) [
        | inl (id, f) ↦ (ground arith, ground arith, ground arith)
        | inr (_, f) ↦ absurd (ground arith)
      ]

  -- What the theorem below says of the message.
  abbrev pub IsServed : Claims → S → ChatStreamRequest → ℕ → ℕ → W → Message → Type 0
  IsServed claims stream req at now w m =
      let saving =
        save_message t msgs claims.email req.to_email (escape_string req.content) at now w in
      (user_exists t users req.to_email w ≡ ok true)
      × (saving.0 ≡ ok m)
      × ((net.send stream (ack hex m) saving.1).0 ≡ none)
      × (m.from_email ≡ email t claims.email)
      × (m.to_email ≡ email t req.to_email)
      × (m.content ≡ escape_string req.content)
      × All IsInert m.content

  -- A chat stream goes on to the next message only if the recipient of this one exists, the message is
  -- saved, from the user of the claims, with content that holds no markup, and its sender has got the
  -- acknowledgement.
  serve_goes_on :
      (claims : Claims) (stream : S) (req : ChatStreamRequest) (at now : ℕ)
      (hub : Option (ConnectionHub S)) (w : W)
      → (serve hex
          (users_store t users)
          (messages_store t msgs)
          net
          order
          claims
          stream
          req
          at
          now
          hub
          w).0
        ≡ none
      → (m : Message) × IsServed claims stream req at now w m
  unfolding serve acknowledge
  serve_goes_on claims stream req at now hub w e =
      let text = escape_string req.content in
      let saving = save_message t msgs claims.email req.to_email text at now w in
      elim (Result-cases (user_exists t users req.to_email w)) [
        | inr (_, f) ↦ absurd (ground arith)
        | inl (found, f) ↦ elim (Result-cases saving.0) [
          | inr (_, g) ↦ absurd (ground arith)
          | inl (m, g) ↦
              let (from, to, content) = saved_fields claims.email req.to_email text at now w m g in
              let inert : All IsInert m.content = rw content (escape_string-IsInert req.content) in
              (m, (ground arith, g, ground arith, from, to, content, inert))
        ]
      ]

  -- For a hub that meets the invariant and holds users under normalized addresses only: when a
  -- message to an address that is not in its normal form has been saved and acknowledged, the
  -- handler goes on and sends nothing more, so that the recipient's streams do not get the
  -- message.
  pub serve_misses :
      (claims : Claims) (stream : S) (req : ChatStreamRequest) (at now : ℕ) (h : ConnectionHub S)
      (w : W) (m : Message)
      → Inv h
      → IsNormal t h
      → email t req.to_email ≢ req.to_email
      → IsServed claims stream req at now w m
      → let saving =
          save_message t msgs claims.email req.to_email (escape_string req.content) at now w in
        serve hex
          (users_store t users)
          (messages_store t msgs)
          net
          order
          claims
          stream
          req
          at
          now
          (some h)
          w
        ≡ (none, some h, (net.send stream (ack hex m) saving.1).1)
  unfolding serve acknowledge deliver
  serve_misses claims stream req at now h w m v normal typed (exists_, saved, sent, _, _, _, _) =
      let w' =
        (save_message t msgs claims.email req.to_email (escape_string req.content) at now w).1 in
      let w'' = (net.send stream (ack hex m) w').1 in
      elim (send_to_user-row net order req.to_email (ack hex m) h w'' v) [
        | inl (empty, e) ↦ ground arith
        | inr (full, e) ↦ absurd (typed (normal req.to_email full))
      ]

  -- For a hub that meets the invariant, if streams carry what is sent on them unless they are
  -- broken and `range` visits each connection once: once a message is saved and acknowledged, the
  -- handler goes on, and every healthy stream registered under the address as it was typed carries
  -- the acknowledged response once for each of its connections; other streams carry no more than
  -- before.
  pub serve_delivers :
      (broken : S → Bool) (log : Log net broken) (claims : Claims) (stream s : S)
      (req : ChatStreamRequest) (at now : ℕ) (h : ConnectionHub S) (w : W) (m : Message)
      → Visits order
      → Inv h
      → IsServed claims stream req at now w m
      → let saving =
          save_message t msgs claims.email req.to_email (escape_string req.content) at now w in
        let acked = (net.send stream (ack hex m) saving.1).1 in
        let out =
          serve hex
            (users_store t users)
            (messages_store t msgs)
            net
            order
            claims
            stream
            req
            at
            now
            (some h)
            w in
        (out.0 ≡ none)
        × (log.received out.2 s
            ≡ log.received acked s
              ++ replicate
                  (count (reaches net broken log (ack hex m) s) (row req.to_email h.streams))
                  (ack hex m))
  unfolding serve acknowledge deliver
  serve_delivers broken log claims stream s req at now h w m visits v
        (exists_, saved, sent, _, _, _, _) =
      let w' =
        (save_message t msgs claims.email req.to_email (escape_string req.content) at now w).1 in
      let w'' = (net.send stream (ack hex m) w').1 in
      let carried =
        received-send_to_user net broken log (ack hex m) order visits req.to_email h w'' s v in
      (ground arith, ground (arith, carried))
