-- ===== src/Api/Server/Streams.antt =====
-- What a call of a stream sends, through the interceptor.
use rea_time_chat_g_rpc.Base.{
  ℕ, Text, Option, ◌≡◌, refl, sym, ap, ◌∙◌, inl, inr, ◌⊎◌, none, some, List, ◌++◌, map, length,
  arith, pos, Result, ok, Result-cases,
}
use rea_time_chat_g_rpc.Errors.{Status, unauthenticated}
use rea_time_chat_g_rpc.Normalize.{CaseTable}
use rea_time_chat_g_rpc.Auth.{Claims, TokenLib, JwtManager}
use rea_time_chat_g_rpc.Wire.{StreamSender}
use rea_time_chat_g_rpc.Hub.{Conns, ConnectionHub}
use rea_time_chat_g_rpc.Data.Users.{UsersColl}
use rea_time_chat_g_rpc.Data.Models.{Message}
use rea_time_chat_g_rpc.Data.Messages.{MessagesColl, get_message_history}
use rea_time_chat_g_rpc.Data.Messages.History.{IsMessagesColl, IsHistory, get_message_history_ok}
use rea_time_chat_g_rpc.Api.Stores.{UsersStore, users_store, messages_store}
use rea_time_chat_g_rpc.Api.Requests.{GetHistoryRequest, GetHistoryResponse}
use rea_time_chat_g_rpc.Api.Interceptors.{Call}
use rea_time_chat_g_rpc.Api.Interceptors.Access.{Carries, auth_stream_access, Carries-auth_stream}
use rea_time_chat_g_rpc.Api.Handlers.Streaming.{
  ServerStream, Ending, returned, message_response, get_history,
}
use rea_time_chat_g_rpc.Api.Handlers.Streaming.Sending.{
  IsLogged, AllShown, map-AllShown, get_history-sent,
}
use rea_time_chat_g_rpc.Api.Handlers.Chat.{Recv, chat_stream}
use rea_time_chat_g_rpc.Api.Handlers.Chat.Follows.{Stores, Follow, IsFine, asked}
use rea_time_chat_g_rpc.Api.Handlers.Chat.Journal.{chat_stream-docs}
use rea_time_chat_g_rpc.Api.Service as Service
use rea_time_chat_g_rpc.Api.Service.{stream_full_method, get_history_handler, chat_stream_handler}
use rea_time_chat_g_rpc.Api.Service.Chain.{streams_closed}
use rea_time_chat_g_rpc.Api.Server.{
  Server, new_server, refused, serve_get_history, serve_chat_stream,
}

module _ (t : CaseTable) (tokens : TokenLib) (hex : ℕ → Text) {W C S : Type 0}
    (users : UsersStore W) (msgs : MessagesColl W C) (j : JwtManager)
    (hub : Option (ConnectionHub S)) (docs : W → List Message)
    (laws : IsMessagesColl msgs docs) where
  abbrev pub server : Server W S
  server = new_server users (messages_store t msgs) j hub

  -- The request that was read, after the world in which it was read.
  answered_history :
      (stream : ServerStream GetHistoryResponse W) (sent : W → List GetHistoryResponse)
      (call : Call) (c : Claims) (recv : W → Result Status GetHistoryRequest × W) (w : W)
      → IsLogged stream sent
      → let out =
          get_history_handler refused
            (get_history hex server.msgs stream)
            (record call { claims = some c })
            recv
            w in
        out.0 ≡ returned none
        → (req : GetHistoryRequest) × (ms : List Message) × ((recv w).0 ≡ ok req)
          × (get_message_history t msgs c.email req.with_email (pos 100) (recv w).1 ≡ ok ms)
          × (sent out.1 ≡ sent (recv w).1 ++ map (message_response hex server.msgs) ms)
  unfolding get_history_handler
  answered_history stream sent call c recv w logged e = elim (Result-cases (recv w).0) [
    | inr (_, f) ↦ absurd (ground arith)
    | inl (req, f) ↦
        let authed : Call = record call { claims = some c } in
        let (d, ms, same, read, sent_all) =
          get_history-sent hex server.msgs stream sent authed req (recv w).1 logged
            (ground arith) in
        let is_c : c ≡ d = ground arith in
        (
          req,
          ms,
          f,
          ap (λ x. get_message_history t msgs (x.email) req.with_email (pos 100) (recv w).1) is_c
              ∙ read,
          ground (arith, sent_all),
        )
  ]

  -- A history that ends well is that of the user whose token came with the call.
  pub serve_get_history-IsHistory :
      (stream : ServerStream GetHistoryResponse W) (sent : W → List GetHistoryResponse) (now : ℕ)
      (ctx : Call) (recv : W → Result Status GetHistoryRequest × W) (w : W) (d : Claims)
      → IsLogged stream sent
      → Carries t tokens j now
          (record ctx { full_method = stream_full_method Service.get_history })
          d
      → let out = serve_get_history t tokens hex server stream now ctx recv w in
        out.0 ≡ returned none
        → (req : GetHistoryRequest) × (ms : List Message) × ((recv w).0 ≡ ok req)
          × IsHistory t msgs docs laws d.email req.with_email 99 (recv w).1 ms
          × (sent out.1 ≡ sent (recv w).1 ++ map (message_response hex server.msgs) ms)
  unfolding serve_get_history
  serve_get_history-IsHistory stream sent now ctx recv w d logged carried e =
      let call : Call = record ctx { full_method = stream_full_method Service.get_history } in
      let handler : Call → W → Ending × W =
        λ x. get_history_handler refused (get_history hex server.msgs stream) x recv in
      let ran =
        Carries-auth_stream t tokens j refused now call d handler w
          (streams_closed Service.get_history) carried in
      let (req, ms, read, history, sent_all) =
        answered_history stream sent call d recv w logged (ap (λ x. x.0) (sym ran) ∙ e) in
      (
        req,
        ms,
        read,
        get_message_history_ok t msgs docs laws d.email req.with_email 99 (recv w).1 ms history,
        ap (λ x. sent (x.1)) ran ∙ sent_all,
      )

  -- With the documented behaviour of the database, and streams that log what they send without an error: a
  -- call of `GetHistory` that ends well came with a token that is verified, and has sent nothing but the
  -- history of the user of the token with the user that the request names: oldest first, the newest hundred
  -- of all stored messages between the two, in either direction, each as one response that shows it field by
  -- field.
  pub get_history_answers :
      (stream : ServerStream GetHistoryResponse W) (sent : W → List GetHistoryResponse) (now : ℕ)
      (ctx : Call) (recv : W → Result Status GetHistoryRequest × W) (w : W)
      → IsLogged stream sent
      → let call : Call = record ctx { full_method = stream_full_method Service.get_history } in
        let out = serve_get_history t tokens hex server stream now ctx recv w in
        out.0 ≡ returned none
        → (c : Claims) × Carries t tokens j now call c
          × (req : GetHistoryRequest) × ((recv w).0 ≡ ok req)
          × (ms : List Message) × IsHistory t msgs docs laws c.email req.with_email 99 (recv w).1 ms
          × (rs : List GetHistoryResponse) × (sent out.1 ≡ sent (recv w).1 ++ rs)
          × AllShown hex ms rs
  unfolding serve_get_history
  get_history_answers stream sent now ctx recv w logged e =
      let call : Call = record ctx { full_method = stream_full_method Service.get_history } in
      let handler : Call → W → Ending × W =
        λ x. get_history_handler refused (get_history hex server.msgs stream) x recv in
      elim (auth_stream_access t tokens j refused now call handler w
        (streams_closed Service.get_history)) [
          | inr (s, code, refusal) ↦ absurd (ground arith)
          | inl (c, carried, ran) ↦
              let (req, ms, read, history, sent_all) =
                serve_get_history-IsHistory stream sent now ctx recv w c logged carried e in
              (
                c,
                carried,
                req,
                read,
                ms,
                history,
                map (message_response hex server.msgs) ms,
                sent_all,
                map-AllShown hex server.msgs ms,
              )
        ]

module _ (t : CaseTable) (tokens : TokenLib) (hex : ℕ → Text) {W C S : Type 0} (users : UsersColl W)
    (msgs : MessagesColl W C) (j : JwtManager) (hub : Option (ConnectionHub S))
    (docs : W → List Message) (laws : IsMessagesColl msgs docs) (net : StreamSender S W)
    (order : Conns S → Conns S) (stores : Stores msgs docs net) where
  -- With the documented behaviour of the database, and streams that store nothing: a call of `ChatStream`,
  -- however far it has come, is refused as Unauthenticated and has changed nothing, or it came with a token
  -- that is verified. Then it has only added to the stored messages those of its first requests, in their
  -- order, each from the user of the token and with its content escaped, and one for each message that it has
  -- received if it is still waiting or has returned nil.
  pub chat_messages_authentic :
      (stream : S) (rs : List Recv) (now : ℕ) (ctx : Call) (h : Option (ConnectionHub S)) (w : W)
      → let call : Call = record ctx { full_method = stream_full_method Service.chat_stream } in
        let server = new_server (users_store t users) (messages_store t msgs) j hub in
        let out = serve_chat_stream t tokens hex server net order stream rs now ctx (h, w) in
        ((c : Claims) × Carries t tokens j now call c
          × (ms : List Message) × (docs out.1.1 ≡ docs w ++ ms)
          × Follow t c rs ms
          × (IsFine out.0 → length ms ≡ asked rs))
        ⊎ ((e : Status) × (e.code ≡ unauthenticated) × (out ≡ (some (some e), (h, w))))
  unfolding serve_chat_stream chat_stream_handler
  chat_messages_authentic stream rs now ctx h w =
      let call : Call = record ctx { full_method = stream_full_method Service.chat_stream } in
      let handler : Call
          → Option (ConnectionHub S) × W
          → Option (Option Status) × (Option (ConnectionHub S) × W) =
        λ x (k, v).
          let (end, k', v') =
            chat_stream hex (users_store t users) (messages_store t msgs) net order x stream rs k
              v in
          (end, (k', v')) in
      elim (auth_stream_access t tokens j (λ s. some (some s)) now call handler (h, w)
        (streams_closed Service.chat_stream)) [
          | inr refusal ↦ inr refusal
          | inl (c, carried, ran) ↦
              let (ms, added, follow, all) =
                chat_stream-docs t hex users msgs net order docs laws stores
                  (record call { claims = some c }) c stream rs h w refl in
              inl (
                c,
                carried,
                ms,
                ap (λ x. docs (x.1.1)) ran ∙ added,
                follow,
                λ fine. all (λ e g. fine e (ap (λ x. x.0) ran ∙ g)),
              )
        ]
