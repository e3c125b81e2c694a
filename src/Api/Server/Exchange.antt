-- ===== src/Api/Server/Exchange.antt =====
-- What is written in a chat stream, read back by the other user.
use rea_time_chat_g_rpc.Base.{
  Has-map, Has-right, All-of_Has, ℕ, Text, Option, ◌≡◌, refl, sym, ap, subst, ◌∙◌, inl, inr, ◌⊎◌,
  none, some, List, ◌++◌, map, arith, Result, ok,
}
use rea_time_chat_g_rpc.Errors.{Status}
use rea_time_chat_g_rpc.Normalize.{CaseTable}
use rea_time_chat_g_rpc.Auth.{Claims, TokenLib, JwtManager}
use rea_time_chat_g_rpc.Wire.{StreamSender}
use rea_time_chat_g_rpc.Hub.{Conns, ConnectionHub}
use rea_time_chat_g_rpc.Data.Users.{UsersColl}
use rea_time_chat_g_rpc.Data.Models.{Message}
use rea_time_chat_g_rpc.Data.Messages.{MessagesColl}
use rea_time_chat_g_rpc.Data.Messages.History.{IsMessagesColl, IsHistory}
use rea_time_chat_g_rpc.Api.Stores.{users_store, messages_store}
use rea_time_chat_g_rpc.Api.Requests.{GetHistoryRequest, GetHistoryResponse}
use rea_time_chat_g_rpc.Api.Interceptors.{Call}
use rea_time_chat_g_rpc.Api.Interceptors.Access.{Carries}
use rea_time_chat_g_rpc.Api.Handlers.Streaming.{ServerStream, returned, message_response}
use rea_time_chat_g_rpc.Api.Handlers.Streaming.Sending.{IsLogged, Shows, message_response-Shows}
use rea_time_chat_g_rpc.Api.Handlers.Chat.{Recv, chat_stream}
use rea_time_chat_g_rpc.Api.Handlers.Chat.Follows.{Stores, Follow, IsFine, asked}
use rea_time_chat_g_rpc.Api.Handlers.Chat.Journal.{chat_stream-docs}
use rea_time_chat_g_rpc.Api.Service as Service
use rea_time_chat_g_rpc.Api.Service.{stream_full_method, get_history_handler, chat_stream_handler}
use rea_time_chat_g_rpc.Api.Service.Chain.{streams_closed}
use rea_time_chat_g_rpc.Api.Server.{Server, new_server, serve_get_history, serve_chat_stream}
use rea_time_chat_g_rpc.Base.{All, Has, ◌≢◌, length, keep, ◌≤◌, text_discrete, [], ◌∷◌}
use rea_time_chat_g_rpc.Normalize.{email}
use rea_time_chat_g_rpc.Data.Messages.History.{between, exchanged}
use rea_time_chat_g_rpc.Data.Messages.Saved.{IsHistory-complete}
use rea_time_chat_g_rpc.Api.Handlers.Chat.{received, closed, failed}
use rea_time_chat_g_rpc.Api.Interceptors.Access.{Carries-auth_stream}
use rea_time_chat_g_rpc.Api.Server.Streams.{serve_get_history-IsHistory}

from_claims :
    (t : CaseTable) (c : Claims) (m : Message) (rs : List Recv) (ms : List Message)
    → Follow t c rs ms
    → Has m ms
    → m.from_email ≡ email t c.email
from_claims t c m rs [] f h = absurd h
from_claims t c m [] (x ∷ ms) f h = absurd f
from_claims t c m (closed ∷ rs) (x ∷ ms) f h = absurd f
from_claims t c m (failed e ∷ rs) (x ∷ ms) f h = absurd f
from_claims t c m (received req at now ∷ rs) (x ∷ ms) f (inl e) =
    ap (λ y. y.from_email) (sym e) ∙ f.0.0
from_claims t c m (received req at now ∷ rs) (x ∷ ms) f (inr h) = from_claims t c m rs ms f.1 h

module _ (t : CaseTable) (tokens : TokenLib) (hex : ℕ → Text) {W C S : Type 0} (users : UsersColl W)
    (msgs : MessagesColl W C) (j : JwtManager) (hub : Option (ConnectionHub S))
    (docs : W → List Message) (laws : IsMessagesColl msgs docs) where
  -- `server.go`'s server over the two stores
  abbrev pub chat_server : Server W S
  chat_server = new_server (users_store t users) (messages_store t msgs) j hub

  history-Has :
      (w : W) (partner : Text) (c d : Claims) (m : Message) (ms : List Message)
      → IsHistory t msgs docs laws d.email partner 99 w ms
      → email t partner ≡ email t c.email
      → length (keep (exchanged t d.email c.email) (docs w)) ≤ 100
      → Has m (docs w)
      → m.from_email ≡ email t c.email
      → m.to_email ≡ email t d.email
      → Has m ms
  history-Has w partner c d m ms history named room has from to =
      IsHistory-complete t msgs docs laws d.email partner 99 w ms m history
        (subst (λ e. length (keep (between (email t d.email) e) (docs w)) ≤ 100) (sym named) room)
        has (from ∙ sym named, to)

  -- What the client is sent holds the stored messages to the user.
  read-All :
      (w : W) (partner : Text) (c d : Claims) (rs : List Recv) (old ms got : List Message)
      (before sent : List GetHistoryResponse)
      → IsHistory t msgs docs laws d.email partner 99 w got
      → email t partner ≡ email t c.email
      → length (keep (exchanged t d.email c.email) (docs w)) ≤ 100
      → docs w ≡ old ++ ms
      → Follow t c rs ms
      → sent ≡ before ++ map (message_response hex chat_server.msgs) got
      → All
          (λ m.
            (m.to_email ≢ email t d.email)
            ⊎ ((r : GetHistoryResponse) × Has r sent × Shows hex m r))
          ms
  read-All w partner c d rs old ms got before sent history named room added follow sent_all =
      let response = message_response hex chat_server.msgs in
      All-of_Has
        (λ m.
          (m.to_email ≢ email t d.email) ⊎ ((r : GetHistoryResponse) × Has r sent × Shows hex m r))
        ms
        (λ m has. elim (text_discrete m.to_email (email t d.email)) [
          | no n ↦ inl n
          | yes to ↦
              let stored = subst (Has m) (sym added) (Has-right m old ms has) in
              let found =
                history-Has w partner c d m got history named room stored
                  (from_claims t c m rs ms follow has) to in
              inr (
                response m,
                subst (Has (response m)) (sym sent_all) (
                    Has-right (response m) before (map response got)
                      (Has-map response m got found)),
                message_response-Shows hex chat_server.msgs m,
              )
        ])

  module _ (net : StreamSender S W) (order : Conns S → Conns S)
      (stores : Stores msgs docs net) where
    -- What an authenticated chat stream has stored.
    chat_stored :
        (stream : S) (rs : List Recv) (now : ℕ) (ctx : Call) (h : Option (ConnectionHub S)) (w : W)
        (c : Claims)
        → Carries t tokens j now
            (record ctx { full_method = stream_full_method Service.chat_stream })
            c
        → let out = serve_chat_stream t tokens hex chat_server net order stream rs now ctx (h, w) in
          (ms : List Message) × (docs out.1.1 ≡ docs w ++ ms)
          × Follow t c rs ms
          × (IsFine out.0 → length ms ≡ asked rs)
    unfolding serve_chat_stream chat_stream_handler
    chat_stored stream rs now ctx h w c carried =
        let call : Call = record ctx { full_method = stream_full_method Service.chat_stream } in
        let handler : Call
            → Option (ConnectionHub S) × W
            → Option (Option Status) × (Option (ConnectionHub S) × W) =
          λ x (k, v).
            let (end, k', v') =
              chat_stream hex (users_store t users) (messages_store t msgs) net order x stream rs k
                v in
            (end, (k', v')) in
        let ran =
          Carries-auth_stream t tokens j (λ s. some (some s)) now call c handler (h, w)
            (streams_closed Service.chat_stream) carried in
        let (ms, added, follow, all) =
          chat_stream-docs t hex users msgs net order docs laws stores
            (record call { claims = some c }) c stream rs h w refl in
        (
          ms,
          ap (λ x. docs (x.1.1)) ran ∙ added,
          follow,
          λ fine. all (λ e g. fine e (ap (λ x. x.0) ran ∙ g)),
        )

    -- With the documented behaviour of the database, streams that store nothing, and an inbox that logs what
    -- is sent without an error: after a call of `ChatStream` with a verified token, however far it has come,
    -- another call of `GetHistory` with a verified token that names the user of the chat stream under any
    -- spelling and ends well has sent every message of the chat stream to its own user, as stored,
    -- field by field, if the two have exchanged no more than a hundred messages. The chat stream has stored one
    -- message for each that it received, with the content escaped, if it is still waiting or has returned nil.
    pub chat_reads_back :
        (stream : S) (rs : List Recv) (now later : ℕ) (chat read : Call)
        (h : Option (ConnectionHub S)) (w : W) (inbox : ServerStream GetHistoryResponse W)
        (sent : W → List GetHistoryResponse) (recv : W → Result Status GetHistoryRequest × W)
        (c d : Claims) (req : GetHistoryRequest)
        → IsLogged inbox sent
        → ((v : W) → docs (recv v).1 ≡ docs v)
        → Carries t tokens j now
            (record chat { full_method = stream_full_method Service.chat_stream })
            c
        → Carries t tokens j later
            (record read { full_method = stream_full_method Service.get_history })
            d
        → let chatted =
            serve_chat_stream t tokens hex chat_server net order stream rs now chat (h, w) in
          let w' = chatted.1.1 in
          let out = serve_get_history t tokens hex chat_server inbox later read recv w' in
          (recv w').0 ≡ ok req
          → email t req.with_email ≡ email t c.email
          → length (keep (exchanged t d.email c.email) (docs w')) ≤ 100
          → out.0 ≡ returned none
          → (ms : List Message) × (docs w' ≡ docs w ++ ms)
            × Follow t c rs ms
            × (IsFine chatted.0 → length ms ≡ asked rs)
            × All
                (λ m.
                  (m.to_email ≢ email t d.email)
                  ⊎ ((r : GetHistoryResponse) × Has r (sent out.1) × Shows hex m r))
                ms
    chat_reads_back stream rs now later chat read h w inbox sent recv c d req logged quiet chats
          reads asked named room ended =
        let w' =
          (serve_chat_stream t tokens hex chat_server net order stream rs now chat (h, w)).1.1 in
        let (ms, added, follow, all) = chat_stored stream rs now chat h w c chats in
        let (asks, got, answered, is_history, sent_all) =
          serve_get_history-IsHistory t tokens hex (users_store t users) msgs j hub docs laws inbox
            sent later read recv w' d logged reads ended in
        let same : asks ≡ req = ground arith in
        let partner : email t asks.with_email ≡ email t c.email =
          ap (λ r. email t r.with_email) same ∙ named in
        let enough =
          subst (λ l. length (keep (exchanged t d.email c.email) l) ≤ 100) (sym (quiet w')) room in
        (
          ms,
          added,
          follow,
          all,
          read-All (recv w').1 asks.with_email c d rs (docs w) ms got (sent (recv w').1) _
              is_history partner enough (quiet w' ∙ added) follow sent_all,
        )
