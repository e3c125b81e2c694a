-- ===== src/Api/Turns.antt =====
-- The chat streams of cmd/api/handlers.go in smaller steps: the handlers take turns inside their rounds too,
-- and a `Send` has a start and an end, so that others may come in between. The hub is that of Hub/Shared, whose
-- maps are objects of a heap. What gRPC answers to a `Send` is up to it, and the runs are those in which no map
-- is written while it is read at that very moment.
pub mod State
pub mod Calls
pub mod Moves
pub mod Failures
pub mod Kept
pub mod Connected
pub mod Log
pub mod Order
pub mod Delivered
pub mod Settled
pub mod Served
pub mod Owners
pub mod Addressed
pub mod Recipients
pub mod Overlap
pub mod Own
pub mod AloneMoves
pub mod AloneDelivers
pub mod AloneRounds
pub mod Alone
mod Tests
mod Answers
use rea_time_chat_g_rpc.Base.{
  ℕ, ◌+◌, ◌%◌, ◌≡◌, ◌≢◌, true, false, Option, none, some, List, [], ◌∷◌, Text, ok, err, Bool,
  Result, text_discrete, ℕ_discrete, lookup, update, map, Has, All,
}
use rea_time_chat_g_rpc.Errors.{Error}
use rea_time_chat_g_rpc.Wire.{ChatStreamResponse}
use rea_time_chat_g_rpc.Auth.{Claims}
use rea_time_chat_g_rpc.Hub.{Conns, int64_mod, note_failed}
use rea_time_chat_g_rpc.Hub.Shared.{Shared, new_shared, register_at, unregister_at}
use rea_time_chat_g_rpc.Data.Models.{Message}
use rea_time_chat_g_rpc.Api.Html.{escape_string}
use rea_time_chat_g_rpc.Api.Stores.{UsersStore, MessagesStore}
use rea_time_chat_g_rpc.Api.Requests.{ChatStreamRequest}
use rea_time_chat_g_rpc.Api.Interceptors.{Call, get_claims_from_context}
use rea_time_chat_g_rpc.Api.Handlers.Chat.{Recv, ack}
use rea_time_chat_g_rpc.Api.Handlers.Chat.Ending.{is_end}
use rea_time_chat_g_rpc.Api.Chats.{Session}
use rea_time_chat_g_rpc.Api.Turns.State.{
  Delivery, Phase, receiving, checking, saving, acking, calling, ranging, sending, clearing,
  leaving, left, Handler, Sent, Turns, after_check, after_ack, after_look, after_send, opened,
  moved, saved, picked, unregistered,
}

-- The handler is there.
abbrev pub IsAt : {S W : Type 0} → ℕ → Handler S → Phase S → Turns S W → Type 0
IsAt i x p st = (st.handlers i ≡ some x) × (x.phase ≡ p)

-- The loop over the map has come to all entries that were there from the beginning and still are.
abbrev pub IsDone : {S W : Type 0} → Delivery → Turns S W → Type 0
IsDone d st =
    All (λ id. lookup ℕ_discrete id (st.hub.heap d.row) ≢ none → Has id d.visited) d.at_first

-- `range` may come to an entry of the map that it has not come to, and ends when those that were there from
-- the beginning are visited or deleted.
pub data Step (hex : ℕ → Text) {S W : Type 0} (users : UsersStore W) (msgs : MessagesStore W)
    (st : Turns S W) : Turns S W → Type 0 where
  opens :
      (call : Call) (claims : Claims) (stream : S)
      → get_claims_from_context call ≡ some claims
      → Step hex users msgs st (opened claims stream st)
  receives :
      (i : ℕ) (x : Handler S) (req : ChatStreamRequest) (at now : ℕ)
      → IsAt i x receiving st
      → Step hex users msgs st (moved i x (checking req at now) st)
  ends :
      (i : ℕ) (x : Handler S) (e : Recv)
      → IsAt i x receiving st
      → is_end e ≡ true
      → Step hex users msgs st (moved i x leaving st)
  checks :
      (i : ℕ) (x : Handler S) (req : ChatStreamRequest) (at now : ℕ)
      → IsAt i x (checking req at now) st
      → Step hex users msgs st
          (moved i x (after_check req at now (users.user_exists req.to_email st.world)) st)
  saves :
      (i : ℕ) (x : Handler S) (req : ChatStreamRequest) (at now : ℕ)
      → IsAt i x (saving req at now) st
      → Step hex users msgs st (saved hex msgs i x req at now st)
  acked :
      (i : ℕ) (x : Handler S) (to : Text) (resp : ChatStreamResponse) (e : Option Error)
      → IsAt i x (acking to resp) st
      → Step hex users msgs st (moved i x (after_ack to resp e) st)
  looks :
      (i : ℕ) (x : Handler S) (to : Text) (resp : ChatStreamResponse)
      → IsAt i x (calling to resp) st
      → Step hex users msgs st (moved i x (after_look to resp st.hub) st)
  picks :
      (i : ℕ) (x : Handler S) (d : Delivery) (id : ℕ) (s : S)
      → IsAt i x (ranging d) st
      → lookup ℕ_discrete id (st.hub.heap d.row) ≡ some s
      → ¬ Has id d.visited
      → Step hex users msgs st (picked i x d id s st)
  sent :
      (i : ℕ) (x : Handler S) (d : Delivery) (id : ℕ) (s : S) (e : Option Error)
      → IsAt i x (sending d id s) st
      → Step hex users msgs st (moved i x (after_send d id e) st)
  stops :
      (i : ℕ) (x : Handler S) (d : Delivery)
      → IsAt i x (ranging d) st
      → IsDone d st
      → Step hex users msgs st (moved i x (clearing d.to d.failed) st)
  clears :
      (i : ℕ) (x : Handler S) (to : Text) (id : ℕ) (ids : List ℕ)
      → IsAt i x (clearing to (id ∷ ids)) st
      → Step hex users msgs st (moved i x (clearing to ids) (unregistered to id st))
  cleared :
      (i : ℕ) (x : Handler S) (to : Text)
      → IsAt i x (clearing to []) st
      → Step hex users msgs st (moved i x receiving st)
  leaves :
      (i : ℕ) (x : Handler S)
      → IsAt i x leaving st
      → Step hex users msgs st
          (moved i x left (unregistered x.session.claims.email x.session.conn_id st))

pub data Reach (hex : ℕ → Text) {S W : Type 0} (users : UsersStore W) (msgs : MessagesStore W)
    (st : Turns S W) : Turns S W → Type 0 where
  here : Reach hex users msgs st st
  next :
      {k l : Turns S W}
      → Reach hex users msgs st k
      → Step hex users msgs k l
      → Reach hex users msgs st l
