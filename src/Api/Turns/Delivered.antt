-- ===== src/Api/Turns/Delivered.antt =====
-- The order in which a handler delivers its messages.
use mathlib.Core.List.{Sublist}
use mathlib.Core.List.Sublist
use rea_time_chat_g_rpc.Base.{
  ℕ, refl, none, some, Option, List, [], ◌∷◌, Text, ok, err, Has, lookup, text_discrete, Bool, true,
  false, subst, Result,
}
use rea_time_chat_g_rpc.Wire.{ChatStreamResponse}
use rea_time_chat_g_rpc.Auth.{Claims}
use rea_time_chat_g_rpc.Errors.{Error}
use rea_time_chat_g_rpc.Data.Models.{Message}
use rea_time_chat_g_rpc.Hub.{Conns}
use rea_time_chat_g_rpc.Hub.Shared.{Shared, unregister_at}
use rea_time_chat_g_rpc.Api.Html.{escape_string}
use rea_time_chat_g_rpc.Api.Handlers.Chat.{ack}
use rea_time_chat_g_rpc.Api.Stores.{UsersStore, MessagesStore}
use rea_time_chat_g_rpc.Api.Requests.{ChatStreamRequest}
use rea_time_chat_g_rpc.Api.Turns.State.{
  Delivery, Phase, receiving, checking, acking, sending, clearing, leaving, left, Handler, Sent,
  Turns, new_turns, moved, opened, after_save, saved, after_check, after_look, over, after_ack,
  picked, after_send, unregistered,
}
use rea_time_chat_g_rpc.Api.Turns.{
  IsAt, Step, opens, receives, ends, checks, saves, acked, looks, picks, sent, stops, clears,
  cleared, leaves, Reach, here, next,
}
use rea_time_chat_g_rpc.Api.Turns.Log.{acked_by, delivered_by}
use rea_time_chat_g_rpc.Api.Turns.Order.{
  current, Owes, InOrder, InOrder-stays, InOrder-acks, InOrder-delivers,
}

module _ {S W : Type 0} (hex : ℕ → Text) (users : UsersStore W) (msgs : MessagesStore W) where
  abbrev pub Ordered : Turns S W → Type 0
  Ordered st = InOrder st.handlers st.log

  opened-Ordered :
      (claims : Claims) (stream : S) (st : Turns S W)
      → Ordered st
      → Ordered (opened claims stream st)
  unfolding opened
  opened-Ordered claims stream st v = InOrder-stays st.handlers st.log st.started _ v tt

  -- What the handler owes at its phase.
  pub held :
      {p : Phase S} (st : Turns S W)
      → Ordered st
      → (i : ℕ) (x : Handler S) → IsAt i x p st
      → Owes st.log i (current p)
  held st v i x (there, at) = subst (λ q. Owes st.log i (current q)) at (v.now i x there)

  moved-Ordered :
      (i : ℕ) (x : Handler S) (p : Phase S) (st : Turns S W)
      → Ordered st
      → Owes st.log i (current p)
      → Ordered (moved i x p st)
  unfolding moved
  moved-Ordered i x p st v o = InOrder-stays st.handlers st.log i (record x { phase = p }) v o

  over-Owes :
      (log : List (Sent S)) (i : ℕ) (to : Text) (resp : ChatStreamResponse) (a : ℕ) (cs : Conns S)
      → Owes log i (some (resp, []))
      → Owes log i (current (over to resp a cs))
  over-Owes log i to resp a [] o = tt
  over-Owes log i to resp a (c ∷ cs) o = o

  after_look-Owes :
      (log : List (Sent S)) (i : ℕ) (to : Text) (resp : ChatStreamResponse) (h : Shared S)
      → Owes log i (some (resp, []))
      → Owes log i (current (after_look to resp h))
  unfolding after_look
  after_look-Owes log i to resp h o =
      elim (lookup text_discrete to h.rows)
        as (λ r.
          Owes log i (current (elim r [ none ↦ receiving | some a ↦ over to resp a (h.heap a) ]))) [
            | none ↦ tt
            | some a ↦ over-Owes log i to resp a (h.heap a) o
          ]

  after_check-Owes :
      (log : List (Sent S)) (i : ℕ) (req : ChatStreamRequest) (at now : ℕ) (r : Result Error Bool)
      → Owes log i (current {S = S} (after_check req at now r))
  after_check-Owes log i req at now (err e) = tt
  after_check-Owes log i req at now (ok false) = tt
  after_check-Owes log i req at now (ok true) = tt

  after_save-Ordered :
      (i : ℕ) (x : Handler S) (to : Text) (r : Result Error Message) (st : Turns S W)
      → Ordered st
      → Ordered (after_save hex i x to r st)
  unfolding after_save moved
  after_save-Ordered i x to (err e) st v = moved-Ordered i x leaving st v tt
  after_save-Ordered i x to (ok m) st v =
      InOrder-acks st.handlers st.log i (record x { phase = acking to (ack hex m) }) v
        x.session.stream (ack hex m) refl

  saved-Ordered :
      (i : ℕ) (x : Handler S) (req : ChatStreamRequest) (at now : ℕ) (st : Turns S W)
      → Ordered st
      → Ordered (saved hex msgs i x req at now st)
  unfolding saved
  saved-Ordered i x req at now st v =
      let (result, w) =
        msgs.save_message x.session.claims.email req.to_email (escape_string req.content) at now
          st.world in
      after_save-Ordered i x req.to_email result (record st { world = w }) v

  after_ack-Owes :
      (log : List (Sent S)) (i : ℕ) (to : Text) (resp : ChatStreamResponse) (e : Option Error)
      → Owes log i (some (resp, []))
      → Owes log i (current {S = S} (after_ack to resp e))
  after_ack-Owes log i to resp none o = o
  after_ack-Owes log i to resp (some e) o = tt

  picked-Ordered :
      (i : ℕ) (x : Handler S) (d : Delivery) (id : ℕ) (s : S) (st : Turns S W)
      → Ordered st
      → Owes st.log i (some (d.resp, d.visited))
      → ¬ Has id d.visited
      → Ordered (picked i x d id s st)
  unfolding picked moved
  picked-Ordered i x d id s st v o fresh =
      InOrder-delivers st.handlers st.log i (record x { phase = sending d id s }) v d id s o fresh
        refl

  unregistered-Ordered :
      (i : ℕ) (x : Handler S) (p : Phase S) (email : Text) (id : ℕ) (st : Turns S W)
      → Ordered st
      → Owes st.log i (current p)
      → Ordered (moved i x p (unregistered email id st))
  unfolding unregistered
  unregistered-Ordered i x p email id st v o =
      moved-Ordered i x p (record st { hub = unregister_at email id st.hub }) v o

  Step-Ordered : {st k : Turns S W} → Step hex users msgs st k → Ordered st → Ordered k
  Step-Ordered {st} (opens call claims stream auth) v = opened-Ordered claims stream st v
  Step-Ordered {st} (receives i x req at now here_) v =
      moved-Ordered i x (checking req at now) st v tt
  Step-Ordered {st} (ends i x e at last) v = moved-Ordered i x leaving st v tt
  Step-Ordered {st} (checks i x req at now here_) v =
      moved-Ordered i x (after_check req at now (users.user_exists req.to_email st.world)) st v
        (after_check-Owes st.log i req at now (users.user_exists req.to_email st.world))
  Step-Ordered {st} (saves i x req at now here_) v = saved-Ordered i x req at now st v
  Step-Ordered {st} (acked i x to resp e at) v =
      moved-Ordered i x (after_ack to resp e) st v
        (after_ack-Owes st.log i to resp e (held st v i x at))
  Step-Ordered {st} (looks i x to resp at) v =
      moved-Ordered i x (after_look to resp st.hub) st v
        (after_look-Owes st.log i to resp st.hub (held st v i x at))
  Step-Ordered {st} (picks i x d id s at found fresh) v =
      picked-Ordered i x d id s st v (held st v i x at) fresh
  Step-Ordered {st} (sent i x d id s e at) v =
      moved-Ordered i x (after_send d id e) st v (held st v i x at)
  Step-Ordered {st} (stops i x d at all) v = moved-Ordered i x (clearing d.to d.failed) st v tt
  Step-Ordered {st} (clears i x to id ids at) v =
      unregistered-Ordered i x (clearing to ids) to id st v tt
  Step-Ordered {st} (cleared i x to at) v = moved-Ordered i x receiving st v tt
  Step-Ordered {st} (leaves i x at) v =
      unregistered-Ordered i x left x.session.claims.email x.session.conn_id st v tt

  pub Reach-Ordered : {st k : Turns S W} → Reach hex users msgs st k → Ordered st → Ordered k
  Reach-Ordered here v = v
  Reach-Ordered (next r step) v = Step-Ordered step (Reach-Ordered r v)

  pub new_turns-Ordered : (w : W) → Ordered (new_turns w)
  unfolding new_turns acked_by delivered_by
  new_turns-Ordered w = record { so_far = λ i id. Sublist.refl []; now = λ i x p. absurd (cc) }

  -- In whatever order the handlers of the chat streams take their turns: what a handler has sent for a
  -- connection are some of the responses by which it has acknowledged the messages that it saved, in their
  -- order and each at most once.
  pub delivered_in_order :
      (w : W) (st : Turns S W) (i id : ℕ)
      → Reach hex users msgs (new_turns w) st
      → Sublist (delivered_by i id st.log) (acked_by i st.log)
  delivered_in_order w st i id reach = (Reach-Ordered reach (new_turns-Ordered w)).so_far i id
