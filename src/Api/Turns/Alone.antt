-- ===== src/Api/Turns/Alone.antt =====
-- A handler that takes its turns alone, against a round of `ChatStream`.
use rea_time_chat_g_rpc.Base.{ℕ, ◌≡◌, some, Option, Text, ℕ_discrete, Ranges}
use rea_time_chat_g_rpc.Errors.{Error, Status}
use rea_time_chat_g_rpc.Hub.{Conns, ConnectionHub}
use rea_time_chat_g_rpc.Hub.Shared.{Shared}
use rea_time_chat_g_rpc.Hub.Shared.Rows.{Same}
use rea_time_chat_g_rpc.Api.Stores.{UsersStore, MessagesStore}
use rea_time_chat_g_rpc.Api.Turns.State.{receiving, Handler, Turns}
use rea_time_chat_g_rpc.Api.Turns.{IsAt}
use rea_time_chat_g_rpc.Api.Turns.Own.{OwnReach-others}
use rea_time_chat_g_rpc.Base.{◌≢◌}
use rea_time_chat_g_rpc.Api.Requests.{ChatStreamRequest}
use rea_time_chat_g_rpc.Api.Handlers.Chat.{serve}
use rea_time_chat_g_rpc.Api.Turns.AloneMoves.{fated, Comes}
use rea_time_chat_g_rpc.Api.Turns.AloneRounds.{resumes, round_alone}

module _ {S W : Type 0} (hex : ℕ → Text) (users : UsersStore W) (msgs : MessagesStore W)
    (fate : S → Option Error) (order : Conns S → Conns S) (visits : Ranges ℕ_discrete order) where
  module _ (st : Turns S W) (i : ℕ) (x : Handler S) where
    -- Where a round leaves the handler, and what hub and world, while no other handler has moved
    abbrev pub LeavesAlone : Option Status × Option (ConnectionHub S) × W → Type 0
    LeavesAlone out =
        (hub : Shared S) × (g : ConnectionHub S) × (c : Comes hex users msgs fate st i x
          (resumes out.0) hub out.2)
        × ((j : ℕ) → i ≢ j → c.at.handlers j ≡ st.handlers j)
        × (out.1 ≡ some g)
        × Same hub g

    -- If `range` visits each connection once, and each stream has one answer to every `Send`: take a state
    -- with a handler that waits in `Recv`, and a hub of whole calls that holds the same maps and meets the
    -- invariant. A run in which this handler alone takes steps, so that all others stay
    -- where they are, can bring it where a round of its loop brings it: to wait for
    -- the next message or to leave, as the round says, with the same maps in the hub and the same world.
    pub serves_alone :
        (req : ChatStreamRequest) (at now : ℕ) (g : ConnectionHub S)
        → IsAt i x receiving st
        → Same st.hub g
        → LeavesAlone (
            serve hex users msgs
              (fated fate)
              order
              x.session.claims
              x.session.stream
              req
              at
              now
              (some g)
              st.world)
    serves_alone req at now g free same =
        let (hub, g', c, kept, is) =
          round_alone hex users msgs fate order visits st i x req at now g free same in
        (hub, g', c, OwnReach-others hex users msgs c.way, kept, is)
