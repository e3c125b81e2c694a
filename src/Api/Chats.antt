-- ===== src/Api/Chats.antt =====
-- The chat streams of cmd/api/handlers.go together: any number of `ChatStream` handlers share the hub and
-- the database, and take their rounds in any order. A round is one step.
pub mod Backed
pub mod Connected
pub mod Live
mod Tests
use rea_time_chat_g_rpc.Base.{
  ℕ, zero, suc, ◌≡◌, true, Option, none, some, List, [], ◌∷◌, Text, get_elem?, without,
}
use rea_time_chat_g_rpc.Wire.{StreamSender}
use rea_time_chat_g_rpc.Auth.{Claims}
use rea_time_chat_g_rpc.Hub.{Conns, ConnectionHub}
use rea_time_chat_g_rpc.Api.Stores.{UsersStore, MessagesStore}
use rea_time_chat_g_rpc.Api.Requests.{ChatStreamRequest}
use rea_time_chat_g_rpc.Api.Interceptors.{Call, get_claims_from_context}
use rea_time_chat_g_rpc.Api.Handlers.Chat.{Recv, open_conn, close_conn, serve}
use rea_time_chat_g_rpc.Api.Handlers.Chat.Ending.{is_end}

-- A handler in its loop: the claims, the stream, and the id that `Register` gave.
pub record Session (S : Type 0) : Type 0 where
  pub claims : Claims
  pub stream : S
  pub conn_id : ℕ

pub record Chats (S W : Type 0) : Type 0 where
  pub hub : Option (ConnectionHub S)
  pub world : W
  pub running : List (Session S)

module _ (hex : ℕ → Text) {W S : Type 0} (users : UsersStore W) (msgs : MessagesStore W)
    (net : StreamSender S W) (order : Conns S → Conns S) where
  -- The handler up to its loop.
  pub opened : Claims → S → Chats S W → Chats S W
  opened claims stream st =
      let (hub, id) = open_conn claims.email stream st.hub in
      record st {
        hub = hub;
        running = record { claims = claims; stream = stream; conn_id = id } ∷ st.running;
      }

  -- The return of the `n`th handler, with its deferred call.
  pub ended : ℕ → Session S → Chats S W → Chats S W
  ended n x st = record st {
    hub = close_conn x.claims.email x.conn_id st.hub;
    running = without n st.running;
  }

  -- One round of the `n`th handler.
  pub served : ℕ → Session S → ChatStreamRequest → ℕ → ℕ → Chats S W → Chats S W
  served n x req at now st =
      let (stop, hub, w) =
        serve hex users msgs net order x.claims x.stream req at now st.hub st.world in
      let st' = record st { hub = hub; world = w } in
      elim stop [ none ↦ st' | some status ↦ ended n x st' ]

  pub data Step (st : Chats S W) : Chats S W → Type 0 where
    opens :
        (call : Call) (claims : Claims) (stream : S)
        → get_claims_from_context call ≡ some claims
        → Step st (opened claims stream st)
    serves :
        (n : ℕ) (x : Session S) (req : ChatStreamRequest) (at now : ℕ)
        → get_elem? st.running n ≡ some x
        → Step st (served n x req at now st)
    ends :
        (n : ℕ) (x : Session S) (e : Recv)
        → get_elem? st.running n ≡ some x
        → is_end e ≡ true
        → Step st (ended n x st)

  pub data Reach (st : Chats S W) : Chats S W → Type 0 where
    here : Reach st st
    next : {k l : Chats S W} → Reach st k → Step k l → Reach st l
