-- ===== src/Api/Handlers/Chat/Routes.antt =====
-- What a chat stream leaves in the hub.
use rea_time_chat_g_rpc.Base.{
  ℕ, ◌+◌, ◌%◌, ◌≡◌, refl, ◌⊎◌, inl, inr, Option, none, some, List, [], ◌∷◌, arith, Text,
  Result-cases,
}
use rea_time_chat_g_rpc.Errors.{Status}
use rea_time_chat_g_rpc.Wire.{ChatStreamResponse, StreamSender}
use rea_time_chat_g_rpc.Auth.{Claims}
use rea_time_chat_g_rpc.Hub.{Conns, ConnectionHub, int64_mod, register, conn}
use rea_time_chat_g_rpc.Hub.Routing.{register-id, conn-register, conn-unregister}
use rea_time_chat_g_rpc.Hub.Delivery.{send_to_user-shrinks}
use rea_time_chat_g_rpc.Data.Models.{Message}
use rea_time_chat_g_rpc.Api.Html.{escape_string}
use rea_time_chat_g_rpc.Api.Interceptors.{Call}
use rea_time_chat_g_rpc.Api.Stores.{UsersStore, MessagesStore}
use rea_time_chat_g_rpc.Api.Requests.{ChatStreamRequest}
use rea_time_chat_g_rpc.Api.Handlers.Chat.{
  ack, Recv, received, closed, failed, open_conn, close_conn, deliver, acknowledge, serve,
  chat_loop, run_deferred, chat_stream,
}

module _ {S : Type 0} where
  -- The stream that `id` names, where there is a hub.
  abbrev pub conn? : Text → ℕ → Option (ConnectionHub S) → Option S
  conn? email id none = none
  conn? email id (some h) = conn email id h

  -- No connection is added.
  abbrev pub Shrinks : Option (ConnectionHub S) → Option (ConnectionHub S) → Type 0
  Shrinks hub hub' =
      (email : Text) (i : ℕ)
      → (conn? email i hub' ≡ conn? email i hub) ⊎ (conn? email i hub' ≡ none)

  Shrinks-trans : (a b c : Option (ConnectionHub S)) → Shrinks a b → Shrinks b c → Shrinks a c
  Shrinks-trans a b c p q email i = ground (arith, p email i, q email i)

module _ (hex : ℕ → Text) {W S : Type 0} (users : UsersStore W) (msgs : MessagesStore W)
    (net : StreamSender S W) (order : Conns S → Conns S) where
  deliver-Shrinks :
      (to : Text) (resp : ChatStreamResponse) (hub : Option (ConnectionHub S)) (w : W)
      → Shrinks hub (deliver hex users msgs net order to resp hub w).0
  unfolding deliver
  deliver-Shrinks to resp none w email i = inl refl
  deliver-Shrinks to resp (some h) w email i =
      ground (arith, send_to_user-shrinks net order to email i resp h w)

  acknowledge-Shrinks :
      (stream : S) (to : Text) (saved : Message) (hub : Option (ConnectionHub S)) (w : W)
      → Shrinks hub (acknowledge hex users msgs net order stream to saved hub w).1
  unfolding acknowledge
  acknowledge-Shrinks stream to saved hub w email i =
      let sent = net.send stream (ack hex saved) w in
      ground (arith, deliver-Shrinks to (ack hex saved) hub sent.1 email i)

  pub serve-Shrinks :
      (claims : Claims) (stream : S) (req : ChatStreamRequest) (at now : ℕ)
      (hub : Option (ConnectionHub S)) (w : W)
      → Shrinks hub (serve hex users msgs net order claims stream req at now hub w).1
  unfolding serve
  serve-Shrinks claims stream req at now hub w email i =
      let saving =
        msgs.save_message claims.email req.to_email (escape_string req.content) at now w in
      elim (Result-cases saving.0) [
        | inl (saved, e) ↦
            ground (arith, acknowledge-Shrinks stream req.to_email saved hub saving.1 email i)
        | inr (_, e) ↦ ground arith
      ]

  chat_loop-Shrinks :
      (claims : Claims) (stream : S) (rs : List Recv) (hub : Option (ConnectionHub S)) (w : W)
      → Shrinks hub (chat_loop hex users msgs net order claims stream rs hub w).1
  unfolding chat_loop
  chat_loop-Shrinks claims stream [] hub w email i = inl refl
  chat_loop-Shrinks claims stream (closed ∷ rs) hub w email i = inl refl
  chat_loop-Shrinks claims stream (failed e ∷ rs) hub w email i = inl refl
  chat_loop-Shrinks claims stream (received req at now ∷ rs) hub w email i =
      let r = serve hex users msgs net order claims stream req at now hub w in
      let later = chat_loop-Shrinks claims stream rs r.1 r.2 email i in
      ground (arith, later, serve-Shrinks claims stream req at now hub w email i)

  -- The end of the handler, after a loop that added no connection to the hub with the new one.
  run_deferred-conn :
      (mail : Text) (stream : S) (h : ConnectionHub S)
      (r : Option (Option Status) × Option (ConnectionHub S) × W) (email : Text) (i : ℕ)
      → Shrinks (some (register mail stream h).0) r.1
      → let id = (h.next_id + 1) % int64_mod in
        let out = run_deferred hex users msgs net order mail id r in
        ((out.0 ≡ none) ⊎ (conn? mail id out.1 ≡ none))
        × (((mail ≡ email) × (id ≡ i))
            ⊎ ((conn? email i out.1 ≡ conn email i h) ⊎ (conn? email i out.1 ≡ none)))
  unfolding run_deferred close_conn
  run_deferred-conn mail stream h (none, hub, w) email i s =
      (inl refl, ground (arith, s email i, conn-register mail email i stream h))
  run_deferred-conn mail stream h (some x, none, w) email i s = (inr refl, inr (inr refl))
  run_deferred-conn mail stream h (some x, some h', w) email i s =
      let id = (h.next_id + 1) % int64_mod in
      (
        inr (ground (arith, conn-unregister mail mail id id h')),
        ground (
          arith,
          s email i,
          conn-register mail email i stream h,
          conn-unregister mail email id i h',
        ),
      )

  -- When an authenticated stream's handler returns, for whatever reason, its connection is out of
  -- the hub. Any other connection that the hub has then, or while the handler waits, was there
  -- before.
  pub chat_stream-conn :
      (call : Call) (claims : Claims) (stream : S) (rs : List Recv) (h : ConnectionHub S) (w : W)
      (email : Text) (i : ℕ)
      → call.claims ≡ some claims
      → let id = (h.next_id + 1) % int64_mod in
        let out = chat_stream hex users msgs net order call stream rs (some h) w in
        ((out.0 ≡ none) ⊎ (conn? claims.email id out.1 ≡ none))
        × (((claims.email ≡ email) × (id ≡ i))
            ⊎ ((conn? email i out.1 ≡ conn email i h) ⊎ (conn? email i out.1 ≡ none)))
  unfolding chat_stream open_conn
  chat_stream-conn call claims stream rs h w email i auth =
      let new = (register claims.email stream h).0 in
      rw (auth, chat_stream, register-id claims.email stream h)
        (run_deferred-conn claims.email stream h
          (chat_loop hex users msgs net order claims stream rs (some new) w) email i
          (chat_loop-Shrinks claims stream rs (some new) w))
