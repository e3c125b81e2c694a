-- ===== src/Api/Handlers/Chat/Journal.antt =====
-- What a chat stream adds to the stored messages.
use rea_time_chat_g_rpc.Base.{
  ℕ, ◌≡◌, ◌≢◌, refl, ap, sym, ◌⊎◌, inl, inr, true, false, Option, none, some, List, [], ◌∷◌, ◌++◌,
  append-nil, append_assoc, length, suc, arith, Text, Result, ok, err, Result-cases, Option-cases,
}
use rea_time_chat_g_rpc.Errors.{Error, Status}
use rea_time_chat_g_rpc.Normalize.{CaseTable, email}
use rea_time_chat_g_rpc.Wire.{ChatStreamResponse, StreamSender}
use rea_time_chat_g_rpc.Auth.{Claims}
use rea_time_chat_g_rpc.Hub.{Conns, ConnectionHub}
use rea_time_chat_g_rpc.Hub.Worlds.{send_to_user-keeps}
use rea_time_chat_g_rpc.Data.Models.{Message}
use rea_time_chat_g_rpc.Data.Users.{UsersColl, user_exists}
use rea_time_chat_g_rpc.Data.Messages.{MessagesColl, save_message, new_message}
use rea_time_chat_g_rpc.Data.Messages.History.{IsMessagesColl, stored_as}
use rea_time_chat_g_rpc.Data.Bson.{bson_date}
use rea_time_chat_g_rpc.Data.Messages.Saved.{save_message_ok}
use rea_time_chat_g_rpc.Api.Html.{escape_string}
use rea_time_chat_g_rpc.Api.Stores.{users_store, messages_store}
use rea_time_chat_g_rpc.Api.Requests.{ChatStreamRequest}
use rea_time_chat_g_rpc.Api.Interceptors.{Call}
use rea_time_chat_g_rpc.Api.Handlers.Chat.Follows.{IsOf, Follow, Stores, asked, IsFine}
use rea_time_chat_g_rpc.Api.Handlers.Chat.{
  Recv, received, closed, failed, ack, deliver, acknowledge, serve, open_conn, chat_loop,
  run_deferred, chat_stream,
}

module _ (t : CaseTable) (hex : ℕ → Text) {W C S : Type 0} (users : UsersColl W)
    (msgs : MessagesColl W C) (net : StreamSender S W) (order : Conns S → Conns S)
    (docs : W → List Message) (laws : IsMessagesColl msgs docs)
    (stores : Stores msgs docs net) where
  deliver-docs :
      (to : Text) (resp : ChatStreamResponse) (hub : Option (ConnectionHub S)) (w : W)
      → docs (deliver hex (users_store t users) (messages_store t msgs) net order to resp hub w).1
        ≡ docs w
  unfolding deliver
  deliver-docs to resp none w = refl
  deliver-docs to resp (some h) w = send_to_user-keeps net docs stores.sends order to resp h w

  acknowledge-docs :
      (stream : S) (to : Text) (saved : Message) (hub : Option (ConnectionHub S)) (w : W)
      → docs
          (acknowledge hex
            (users_store t users)
            (messages_store t msgs)
            net
            order
            stream
            to
            saved
            hub
            w).2
        ≡ docs w
  unfolding acknowledge
  acknowledge-docs stream to saved hub w =
      let sent = net.send stream (ack hex saved) w in
      ground
        (arith, stores.sends stream (ack hex saved) w, deliver-docs to (ack hex saved) hub sent.1)

  -- The saving of one request's message.
  abbrev saving : Claims → ChatStreamRequest → ℕ → ℕ → W → Result Error Message × W
  saving claims req at now w =
      save_message t msgs claims.email req.to_email (escape_string req.content) at now w

  saving-ok :
      (claims : Claims) (req : ChatStreamRequest) (at now : ℕ) (w : W) (m : Message)
      → (saving claims req at now w).0 ≡ ok m
      → (x : Message) × (docs (saving claims req at now w).1 ≡ docs w ++ x ∷ [])
        × IsOf t claims req at x
  unfolding new_message
  saving-ok claims req at now w m e =
      let (id, is_new, added) =
        save_message_ok t msgs docs laws claims.email req.to_email (escape_string req.content) at
          now w m e in
      (
        stored_as id m,
        added,
        (
          ap (λ x. x.from_email) is_new,
          ap (λ x. x.to_email) is_new,
          ap (λ x. x.content) is_new,
          ap (λ x. bson_date x.sent_at) is_new,
        ),
      )

  saving-err :
      (claims : Claims) (req : ChatStreamRequest) (at now : ℕ) (w : W) (e : Error)
      → (saving claims req at now w).0 ≡ err e
      → (docs (saving claims req at now w).1 ≡ docs w)
        ⊎ ((m : Message) × (docs (saving claims req at now w).1 ≡ docs w ++ m ∷ [])
            × IsOf t claims req at m)
  unfolding save_message new_message
  saving-err claims req at now w e f =
      let msg = new_message t claims.email req.to_email (escape_string req.content) at now in
      elim (Result-cases (msgs.insert_one msg w).0) [
        | inl (id, g) ↦ absurd (ground arith)
        | inr (x, g) ↦ elim (stores.insert_err msg w x g) [
          | inl same ↦ inl (ground arith)
          | inr (id, added) ↦ inr (stored_as id msg, ground arith, (refl, refl, refl, refl))
        ]
      ]

  -- What one round adds: one message of its request, or none if the handler returns.
  serve-docs :
      (claims : Claims) (stream : S) (req : ChatStreamRequest) (at now : ℕ)
      (hub : Option (ConnectionHub S)) (w : W)
      → let out =
          serve hex
            (users_store t users)
            (messages_store t msgs)
            net
            order
            claims
            stream
            req
            at
            now
            hub
            w in
        ((out.0 ≢ none) × (docs out.2 ≡ docs w))
        ⊎ ((m : Message) × (docs out.2 ≡ docs w ++ m ∷ []) × IsOf t claims req at m)
  unfolding serve
  serve-docs claims stream req at now hub w =
      elim (Result-cases (user_exists t users req.to_email w)) [
        | inr (e, f) ↦ inl ((λ g. (ground arith)), ground arith)
        | inl (false, f) ↦ inl ((λ g. (ground arith)), ground arith)
        | inl (true, f) ↦ elim (Result-cases (saving claims req at now w).0) [
          | inl (m, g) ↦
              let (x, added, is_of) = saving-ok claims req at now w m g in
              let w' = (saving claims req at now w).1 in
              inr (x, ground (arith, added, acknowledge-docs stream req.to_email m hub w'), is_of)
          | inr (e, g) ↦ elim (saving-err claims req at now w e g) [
            | inl same ↦ inl ((λ h. (ground arith)), ground arith)
            | inr (m, added, is_of) ↦ inr (m, ground arith, is_of)
          ]
        ]
      ]

  chat_loop-docs :
      (claims : Claims) (stream : S) (rs : List Recv) (hub : Option (ConnectionHub S)) (w : W)
      → let out =
          chat_loop hex
            (users_store t users)
            (messages_store t msgs)
            net
            order
            claims
            stream
            rs
            hub
            w in
        (ms : List Message) × (docs out.2 ≡ docs w ++ ms)
        × Follow t claims rs ms
        × (IsFine out.0 → length ms ≡ asked rs)
  unfolding chat_loop
  chat_loop-docs claims stream [] hub w = ([], sym (append-nil (docs w)), tt, λ f. refl)
  chat_loop-docs claims stream (closed ∷ rs) hub w = ([], sym (append-nil (docs w)), tt, λ f. refl)
  chat_loop-docs claims stream (failed e ∷ rs) hub w =
      ([], sym (append-nil (docs w)), tt, λ f. absurd (f _ refl))
  chat_loop-docs claims stream (received req at now ∷ rs) hub w =
      let (stop, hub', w') =
        serve hex (users_store t users) (messages_store t msgs) net order claims stream req at now
          hub w in
      let rest =
        chat_loop hex (users_store t users) (messages_store t msgs) net order claims stream rs hub'
          w' in
      elim (Option-cases stop) [
        | inl e ↦ elim (serve-docs claims stream req at now hub w) [
          | inl (stopped, _) ↦ absurd (stopped e)
          | inr (m, added, is_of) ↦
              let (ms, later, follow, all) = chat_loop-docs claims stream rs hub' w' in
              (
                m ∷ ms,
                ground (arith, later, added, append_assoc (docs w) (m ∷ []) ms),
                (is_of, follow),
                λ fine.
                    let fine' : IsFine rest.0 = λ x g. fine x (ground (arith, g)) in
                    ap suc (all fine'),
              )
        ]
        | inr (x, e) ↦ elim (serve-docs claims stream req at now hub w) [
          | inl (_, same) ↦ (
            [],
            ground (arith, same, append-nil (docs w)),
            tt,
            λ fine. absurd (fine x (ground arith)),
          )
          | inr (m, added, is_of) ↦
              (m ∷ [], ground (arith, added), (is_of, tt), λ fine. absurd (fine x (ground arith)))
        ]
      ]

  run_deferred-world :
      (email : Text) (id : ℕ) (r : Option (Option Status) × Option (ConnectionHub S) × W)
      → let out =
          run_deferred hex (users_store t users) (messages_store t msgs) net order email id r in
        (out.2 ≡ r.2) × (out.0 ≡ r.0)
  unfolding run_deferred
  run_deferred-world email id (none, hub, w) = (refl, refl)
  run_deferred-world email id (some x, hub, w) = (refl, refl)

  -- With the documented behaviour of the database, and streams that store nothing: an authenticated chat
  -- stream, however far it has come and however it ends, has only added to the stored messages those of
  -- its first requests, in their order, each from the user of the claims and with its content escaped. If
  -- it is still waiting or has returned nil, it has added one for each message that it received.
  pub chat_stream-docs :
      (call : Call) (claims : Claims) (stream : S) (rs : List Recv) (hub : Option (ConnectionHub S))
      (w : W)
      → call.claims ≡ some claims
      → let out =
          chat_stream hex
            (users_store t users)
            (messages_store t msgs)
            net
            order
            call
            stream
            rs
            hub
            w in
        (ms : List Message) × (docs out.2 ≡ docs w ++ ms)
        × Follow t claims rs ms
        × (IsFine out.0 → length ms ≡ asked rs)
  unfolding chat_stream
  chat_stream-docs call claims stream rs hub w auth =
      let (hub', id) = open_conn claims.email stream hub in
      let (ms, added, follow, all) = chat_loop-docs claims stream rs hub' w in
      let loop =
        chat_loop hex (users_store t users) (messages_store t msgs) net order claims stream rs hub'
          w in
      let (same, end) = run_deferred-world claims.email id loop in
      (
        ms,
        ground (arith, added, same),
        follow,
        λ fine. all (λ x g. fine x (ground (arith, end, g))),
      )
