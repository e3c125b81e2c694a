-- ===== src/Api/Handlers/Chat/Ending.antt =====
-- When a chat stream's handler returns.
use rea_time_chat_g_rpc.Base.{
  ℕ, ◌+◌, ◌%◌, ◌≡◌, refl, inl, inr, Bool, true, false, Option, none, some, List, [], ◌∷◌, ◌++◌,
  arith, Text, is_some,
}
use rea_time_chat_g_rpc.Errors.{Status}
use rea_time_chat_g_rpc.Wire.{StreamSender}
use rea_time_chat_g_rpc.Auth.{Claims}
use rea_time_chat_g_rpc.Hub.{Conns, ConnectionHub, int64_mod}
use rea_time_chat_g_rpc.Api.Stores.{UsersStore, MessagesStore}
use rea_time_chat_g_rpc.Api.Interceptors.{Call}
use rea_time_chat_g_rpc.Api.Handlers.Chat.{
  Recv, received, closed, failed, open_conn, chat_loop, run_deferred, chat_stream, serve,
}
use rea_time_chat_g_rpc.Api.Handlers.Chat.Routes.{conn?, chat_stream-conn}

-- The client has closed its side, or the stream is broken.
abbrev pub is_end : Recv → Bool
is_end (received req at now) = false
is_end closed = true
is_end (failed e) = true

module _ (hex : ℕ → Text) {W S : Type 0} (users : UsersStore W) (msgs : MessagesStore W)
    (net : StreamSender S W) (order : Conns S → Conns S) where
  chat_loop-is_some :
      (claims : Claims) (stream : S) (before after : List Recv) (e : Recv)
      (hub : Option (ConnectionHub S)) (w : W)
      → is_end e ≡ true
      → is_some (chat_loop hex users msgs net order claims stream (before ++ e ∷ after) hub w).0
        ≡ true
  unfolding chat_loop
  chat_loop-is_some claims stream [] after (received req at now) hub w ends = absurd (ground arith)
  chat_loop-is_some claims stream [] after closed hub w ends = ground arith
  chat_loop-is_some claims stream [] after (failed e) hub w ends = ground arith
  chat_loop-is_some claims stream (received req at now ∷ before) after e hub w ends =
      let (_, hub', w') = serve hex users msgs net order claims stream req at now hub w in
      ground (arith, chat_loop-is_some claims stream before after e hub' w' ends)
  chat_loop-is_some claims stream (closed ∷ before) after e hub w ends = ground arith
  chat_loop-is_some claims stream (failed f ∷ before) after e hub w ends = ground arith

  run_deferred-result :
      (email : Text) (id : ℕ) (r : Option (Option Status) × Option (ConnectionHub S) × W)
      → (run_deferred hex users msgs net order email id r).0 ≡ r.0
  unfolding run_deferred
  run_deferred-result email id (none, hub, w) = refl
  run_deferred-result email id (some x, hub, w) = refl

  -- Whatever the client has sent before: once its side is closed or its stream broken, the handler of
  -- an authenticated chat stream has returned, and its connection is out of the hub.
  pub chat_stream_ends :
      (call : Call) (claims : Claims) (stream : S) (before after : List Recv) (e : Recv)
      (h : ConnectionHub S) (w : W)
      → call.claims ≡ some claims
      → is_end e ≡ true
      → let out =
          chat_stream hex users msgs net order call stream (before ++ e ∷ after) (some h) w in
        (is_some out.0 ≡ true) × (conn? claims.email ((h.next_id + 1) % int64_mod) out.1 ≡ none)
  unfolding chat_stream
  chat_stream_ends call claims stream before after e h w auth ends =
      let rs = before ++ e ∷ after in
      let id = (h.next_id + 1) % int64_mod in
      let (hub', id') = open_conn claims.email stream (some h) in
      let loop = chat_loop hex users msgs net order claims stream rs hub' w in
      let returned : is_some (chat_stream hex users msgs net order call stream rs (some h) w).0
          ≡ true =
        ground (
          arith,
          chat_loop-is_some claims stream before after e hub' w ends,
          run_deferred-result claims.email id' loop,
        ) in
      let (gone, _) =
        chat_stream-conn hex users msgs net order call claims stream rs h w claims.email id auth in
      (returned, elim gone [ inl waits ↦ absurd (ground (arith, waits, returned)) | inr g ↦ g ])
