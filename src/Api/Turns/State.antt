-- ===== src/Api/Turns/State.antt =====
-- The state of the chat streams of cmd/api/handlers.go in smaller steps, and what a step makes of it.
use rea_time_chat_g_rpc.Base.{
  ℕ, ◌+◌, ◌%◌, true, false, Option, none, some, List, [], ◌∷◌, Text, ok, err, Bool, Result,
  text_discrete, lookup, update, map,
}
use rea_time_chat_g_rpc.Errors.{Error}
use rea_time_chat_g_rpc.Wire.{ChatStreamResponse}
use rea_time_chat_g_rpc.Auth.{Claims}
use rea_time_chat_g_rpc.Hub.{Conns, int64_mod, note_failed}
use rea_time_chat_g_rpc.Hub.Shared.{Shared, new_shared, register_at, unregister_at}
use rea_time_chat_g_rpc.Data.Models.{Message}
use rea_time_chat_g_rpc.Api.Html.{escape_string}
use rea_time_chat_g_rpc.Api.Stores.{MessagesStore}
use rea_time_chat_g_rpc.Api.Requests.{ChatStreamRequest}
use rea_time_chat_g_rpc.Api.Handlers.Chat.{ack}
use rea_time_chat_g_rpc.Api.Chats.{Session}

-- A call of `SendToUser` in its loop: the address of the map, the ids that the map had at first, those that
-- the loop has come to, and `failedIDs`.
pub record Delivery : Type 0 where
  pub to : Text
  pub resp : ChatStreamResponse
  pub row : ℕ
  pub at_first : List ℕ
  pub visited : List ℕ
  pub failed : List ℕ

-- Where a handler is: in `Recv`, before `UserExists`, before `SaveMessage`, in the `Send` of the
-- acknowledgement, before the lock of `SendToUser`, between two rounds of its loop, in a `Send` of the loop,
-- in the loop of `Unregister` calls, before the deferred call, or over.
pub data Phase (S : Type 0) : Type 0 where
  receiving : Phase S
  checking saving : ChatStreamRequest → ℕ → ℕ → Phase S
  acking calling : Text → ChatStreamResponse → Phase S
  ranging : Delivery → Phase S
  sending : Delivery → ℕ → S → Phase S
  clearing : Text → List ℕ → Phase S
  leaving left : Phase S

pub record Handler (S : Type 0) : Type 0 where
  pub session : Session S
  pub phase : Phase S

-- The start of a `Send`: by the handler of this number, for its own stream or for a connection of a user.
pub data Sent (S : Type 0) : Type 0 where
  acks : ℕ → S → ChatStreamResponse → Sent S
  delivers : ℕ → Text → ℕ → S → ChatStreamResponse → Sent S

-- The handlers have numbers in the order of their start. `sessions` has the handlers that have come to their
-- loop and `log` the calls of `Send`, the last one first.
pub record Turns (S W : Type 0) : Type 0 where
  pub hub : Shared S
  pub world : W
  pub started : ℕ
  pub handlers : ℕ → Option (Handler S)
  pub sessions : List (Session S)
  pub log : List (Sent S)

-- The return of the acknowledgement's `Send`
abbrev pub after_ack : {S : Type 0} → Text → ChatStreamResponse → Option Error → Phase S
after_ack to resp none = calling to resp
after_ack to resp (some e) = leaving

-- What follows `UserExists`
abbrev pub after_check : {S : Type 0} → ChatStreamRequest → ℕ → ℕ → Result Error Bool → Phase S
after_check req at now (err e) = leaving
after_check req at now (ok false) = leaving
after_check req at now (ok true) = saving req at now

-- The loop over a map, before its first round; an empty map has none.
abbrev pub over : {S : Type 0} → Text → ChatStreamResponse → ℕ → Conns S → Phase S
over to resp a [] = receiving
over to resp a (c ∷ cs) = ranging (record {
  to = to;
  resp = resp;
  row = a;
  at_first = map (λ k. k.0) (c ∷ cs);
  visited = [];
  failed = [];
})

-- The first lines of `SendToUser`
unfoldable pub after_look : {S : Type 0} → Text → ChatStreamResponse → Shared S → Phase S
after_look to resp h = elim (lookup text_discrete to h.rows) [
  | none ↦ receiving
  | some a ↦ over to resp a (h.heap a)
]

-- The return of a `Send` of the loop
abbrev pub after_send : {S : Type 0} → Delivery → ℕ → Option Error → Phase S
after_send d id e =
    ranging (record d { visited = id ∷ d.visited; failed = note_failed d.failed id e })

module _ {S W : Type 0} where
  unfoldable pub new_turns : W → Turns S W
  new_turns w = record {
    hub = new_shared;
    world = w;
    started = 0;
    handlers = λ i. none;
    sessions = [];
    log = [];
  }

  -- The handler is now there.
  unfoldable pub moved : ℕ → Handler S → Phase S → Turns S W → Turns S W
  moved i x p st = record st { handlers = update st.handlers i (some (record x { phase = p })) }

  -- The handler up to its loop.
  unfoldable pub opened : Claims → S → Turns S W → Turns S W
  opened claims stream st =
      let session : Session S = record {
        claims = claims;
        stream = stream;
        conn_id = (st.hub.next_id + 1) % int64_mod;
      } in
      record st {
        hub = register_at claims.email stream st.hub;
        started = st.started + 1;
        handlers =
            update st.handlers st.started (some (record { session = session; phase = receiving }));
        sessions = session ∷ st.sessions;
      }

  -- The rest of `SaveMessage` and the start of the acknowledgement
  unfoldable pub after_save :
      (ℕ → Text) → ℕ → Handler S → Text → Result Error Message → Turns S W → Turns S W
  after_save hex i x to (err e) st = moved i x leaving st
  after_save hex i x to (ok m) st =
      moved i x (acking to (ack hex m))
        (record st { log = acks i x.session.stream (ack hex m) ∷ st.log })

  unfoldable pub saved :
      (ℕ → Text)
      → MessagesStore W
      → ℕ
      → Handler S
      → ChatStreamRequest
      → ℕ
      → ℕ
      → Turns S W
      → Turns S W
  saved hex msgs i x req at now st =
      let (result, w) =
        msgs.save_message x.session.claims.email req.to_email (escape_string req.content) at now
          st.world in
      after_save hex i x req.to_email result (record st { world = w })

  -- The start of a `Send` of the loop
  unfoldable pub picked : ℕ → Handler S → Delivery → ℕ → S → Turns S W → Turns S W
  picked i x d id s st =
      moved i x (sending d id s) (record st { log = delivers i d.to id s d.resp ∷ st.log })

  unfoldable pub unregistered : Text → ℕ → Turns S W → Turns S W
  unregistered email id st = record st { hub = unregister_at email id st.hub }
