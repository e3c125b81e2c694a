-- ===== src/Api/Turns/Recipients.antt =====
-- Whose streams a message reaches.
use rea_time_chat_g_rpc.Base.{
  ℕ, ◌≡◌, refl, sym, subst, inl, inr, none, some, Option, List, [], ◌∷◌, arith, Text, text_discrete,
  ℕ_discrete, lookup, Option-cases, All, All-map, Result, ok, err, Bool, true, false,
}
use rea_time_chat_g_rpc.Errors.{Error}
use rea_time_chat_g_rpc.Wire.{ChatStreamResponse}
use rea_time_chat_g_rpc.Hub.{Conns}
use rea_time_chat_g_rpc.Hub.Shared.{Shared, new_shared, register_at, unregister_at}
use rea_time_chat_g_rpc.Auth.{Claims}
use rea_time_chat_g_rpc.Data.Models.{Message}
use rea_time_chat_g_rpc.Api.Html.{escape_string}
use rea_time_chat_g_rpc.Api.Stores.{UsersStore, MessagesStore}
use rea_time_chat_g_rpc.Api.Requests.{ChatStreamRequest}
use rea_time_chat_g_rpc.Api.Handlers.Chat.{ack}
use rea_time_chat_g_rpc.Api.Chats.{Session}
use rea_time_chat_g_rpc.Api.Turns.State.{
  Delivery, Phase, receiving, checking, acking, sending, clearing, leaving, left, Handler, acks,
  delivers, Turns, new_turns, moved, opened, after_save, saved, after_check, after_look, over,
  after_ack, picked, after_send, unregistered,
}
use rea_time_chat_g_rpc.Api.Turns.{
  IsAt, Step, opens, receives, ends, checks, saves, acked, looks, picks, sent, stops, clears,
  cleared, leaves, Reach, here, next,
}
use rea_time_chat_g_rpc.Api.Turns.Owners.{
  Owned, AllOwned, next_session, Owned-register_at, AllOwned-register_at, Owned-unregister_at,
  AllOwned-unregister_at,
}
use rea_time_chat_g_rpc.Api.Turns.Addressed.{
  at_row, OwnedAt, ToOwn, Addressed, ToOwn-cons, Addressed-moves,
}

module _ {S W : Type 0} (hex : ℕ → Text) (users : UsersStore W) (msgs : MessagesStore W) where
  abbrev IsAddressed : Turns S W → Type 0
  IsAddressed st = Addressed st.hub st.handlers st.sessions st.log

  moved-IsAddressed :
      (i : ℕ) (x : Handler S) (p : Phase S) (st : Turns S W)
      → IsAddressed st
      → OwnedAt st.hub st.sessions (at_row p)
      → IsAddressed (moved i x p st)
  unfolding moved
  moved-IsAddressed i x p st v o =
      Addressed-moves st.hub st.hub st.sessions st.sessions st.handlers st.log i
        (record x { phase = p }) v v.rows (λ e a q. q) v.to_own o

  opened-IsAddressed :
      (claims : Claims) (stream : S) (st : Turns S W)
      → IsAddressed st
      → IsAddressed (opened claims stream st)
  unfolding opened
  opened-IsAddressed claims stream st v =
      let session = next_session claims stream st.hub st.sessions in
      let ts = session ∷ st.sessions in
      Addressed-moves st.hub (register_at claims.email stream st.hub) st.sessions ts st.handlers
        st.log st.started (record { session = session; phase = receiving }) v
        (AllOwned-register_at claims stream st.hub st.sessions v.rows)
        (Owned-register_at claims stream st.hub st.sessions)
        (All-map (ToOwn st.sessions) (ToOwn ts) st.log (ToOwn-cons session st.sessions) v.to_own) tt

  unregistered-IsAddressed :
      (i : ℕ) (x : Handler S) (p : Phase S) (email : Text) (id : ℕ) (st : Turns S W)
      → IsAddressed st
      → at_row p ≡ none
      → IsAddressed (moved i x p (unregistered email id st))
  unfolding unregistered moved
  unregistered-IsAddressed i x p email id st v free =
      let k = unregister_at email id st.hub in
      Addressed-moves st.hub k st.sessions st.sessions st.handlers st.log i (record x { phase = p })
        v (AllOwned-unregister_at email id st.hub st.sessions v.rows)
        (Owned-unregister_at email id st.hub st.sessions) v.to_own
        (subst (OwnedAt k st.sessions) (sym free) tt)

  over-OwnedAt :
      (h : Shared S) (ss : List (Session S)) (to : Text) (resp : ChatStreamResponse) (a : ℕ)
      (cs : Conns S)
      → Owned h ss to a
      → OwnedAt h ss (at_row (over to resp a cs))
  over-OwnedAt h ss to resp a [] o = tt
  over-OwnedAt h ss to resp a (c ∷ cs) o = o

  after_look-OwnedAt :
      (h : Shared S) (ss : List (Session S)) (to : Text) (resp : ChatStreamResponse)
      → AllOwned h ss
      → OwnedAt h ss (at_row (after_look to resp h))
  unfolding after_look
  after_look-OwnedAt h ss to resp v = elim (Option-cases (lookup text_discrete to h.rows)) [
    | inl e ↦
        let waits : receiving ≡ after_look {S = S} to resp h = ground arith in
        subst (λ p. OwnedAt h ss (at_row p)) waits tt
    | inr (a, e) ↦
        let goes : over to resp a (h.heap a) ≡ after_look to resp h = ground arith in
        subst (λ p. OwnedAt h ss (at_row p)) goes
          (over-OwnedAt h ss to resp a (h.heap a) (v to a e))
  ]

  after_check-OwnedAt :
      (h : Shared S) (ss : List (Session S)) (req : ChatStreamRequest) (at now : ℕ)
      (r : Result Error Bool)
      → OwnedAt h ss (at_row {S = S} (after_check req at now r))
  after_check-OwnedAt h ss req at now (err e) = tt
  after_check-OwnedAt h ss req at now (ok false) = tt
  after_check-OwnedAt h ss req at now (ok true) = tt

  after_ack-OwnedAt :
      (h : Shared S) (ss : List (Session S)) (to : Text) (resp : ChatStreamResponse)
      (e : Option Error)
      → OwnedAt h ss (at_row {S = S} (after_ack to resp e))
  after_ack-OwnedAt h ss to resp none = tt
  after_ack-OwnedAt h ss to resp (some e) = tt

  after_save-IsAddressed :
      (i : ℕ) (x : Handler S) (to : Text) (r : Result Error Message) (st : Turns S W)
      → IsAddressed st
      → IsAddressed (after_save hex i x to r st)
  unfolding after_save moved
  after_save-IsAddressed i x to (err e) st v = moved-IsAddressed i x leaving st v tt
  after_save-IsAddressed i x to (ok m) st v =
      Addressed-moves st.hub st.hub st.sessions st.sessions st.handlers
        (acks i x.session.stream (ack hex m) ∷ st.log) i
        (record x { phase = acking to (ack hex m) })
        (record { rows = v.rows; busy = v.busy; to_own = (tt, v.to_own) }) v.rows (λ e a q. q)
        (tt, v.to_own) tt

  saved-IsAddressed :
      (i : ℕ) (x : Handler S) (req : ChatStreamRequest) (at now : ℕ) (st : Turns S W)
      → IsAddressed st
      → IsAddressed (saved hex msgs i x req at now st)
  unfolding saved
  saved-IsAddressed i x req at now st v =
      let (result, w) =
        msgs.save_message x.session.claims.email req.to_email (escape_string req.content) at now
          st.world in
      after_save-IsAddressed i x req.to_email result (record st { world = w }) v

  held :
      {p : Phase S} (st : Turns S W)
      → IsAddressed st
      → (i : ℕ) (x : Handler S) → IsAt i x p st
      → OwnedAt st.hub st.sessions (at_row p)
  held st v i x (there, at) =
      subst (λ q. OwnedAt st.hub st.sessions (at_row q)) at (v.busy i x there)

  picked-IsAddressed :
      (i : ℕ) (x : Handler S) (d : Delivery) (id : ℕ) (s : S) (st : Turns S W)
      → IsAddressed st
      → Owned st.hub st.sessions d.to d.row
      → lookup ℕ_discrete id (st.hub.heap d.row) ≡ some s
      → IsAddressed (picked i x d id s st)
  unfolding picked moved
  picked-IsAddressed i x d id s st v o found =
      let own : All (ToOwn st.sessions) (delivers i d.to id s d.resp ∷ st.log) =
        (o.filled id s found, v.to_own) in
      Addressed-moves st.hub st.hub st.sessions st.sessions st.handlers
        (delivers i d.to id s d.resp ∷ st.log) i (record x { phase = sending d id s })
        (record { rows = v.rows; busy = v.busy; to_own = own }) v.rows (λ e a q. q) own o

  Step-IsAddressed : {st k : Turns S W} → Step hex users msgs st k → IsAddressed st → IsAddressed k
  Step-IsAddressed {st} (opens call claims stream auth) v = opened-IsAddressed claims stream st v
  Step-IsAddressed {st} (receives i x req at now here_) v =
      moved-IsAddressed i x (checking req at now) st v tt
  Step-IsAddressed {st} (ends i x e at last) v = moved-IsAddressed i x leaving st v tt
  Step-IsAddressed {st} (checks i x req at now here_) v =
      let answer = users.user_exists req.to_email st.world in
      moved-IsAddressed i x (after_check req at now answer) st v
        (after_check-OwnedAt st.hub st.sessions req at now answer)
  Step-IsAddressed {st} (saves i x req at now here_) v = saved-IsAddressed i x req at now st v
  Step-IsAddressed {st} (acked i x to resp e at) v =
      moved-IsAddressed i x (after_ack to resp e) st v
        (after_ack-OwnedAt st.hub st.sessions to resp e)
  Step-IsAddressed {st} (looks i x to resp at) v =
      moved-IsAddressed i x (after_look to resp st.hub) st v
        (after_look-OwnedAt st.hub st.sessions to resp v.rows)
  Step-IsAddressed {st} (picks i x d id s at found fresh) v =
      picked-IsAddressed i x d id s st v (held st v i x at) found
  Step-IsAddressed {st} (sent i x d id s e at) v =
      moved-IsAddressed i x (after_send d id e) st v (held st v i x at)
  Step-IsAddressed {st} (stops i x d at all) v =
      moved-IsAddressed i x (clearing d.to d.failed) st v tt
  Step-IsAddressed {st} (clears i x to id ids at) v =
      unregistered-IsAddressed i x (clearing to ids) to id st v refl
  Step-IsAddressed {st} (cleared i x to at) v = moved-IsAddressed i x receiving st v tt
  Step-IsAddressed {st} (leaves i x at) v =
      unregistered-IsAddressed i x left x.session.claims.email x.session.conn_id st v refl

  Reach-IsAddressed :
      {st k : Turns S W} → Reach hex users msgs st k → IsAddressed st → IsAddressed k
  Reach-IsAddressed here v = v
  Reach-IsAddressed (next r step) v = Step-IsAddressed step (Reach-IsAddressed r v)

  new_turns-IsAddressed : (w : W) → IsAddressed (new_turns w)
  unfolding new_turns new_shared lookup
  new_turns-IsAddressed w = record {
    rows = λ e a p. absurd (cc);
    busy = λ i x p. absurd (cc);
    to_own = tt;
  }

  -- In whatever order the handlers of the chat streams take their turns, and although a delivery goes over a
  -- map that others write: every response that a handler has sent for a message to an address went to a stream
  -- that some handler has opened under this very address, and under the id that it got for it.
  pub log-ToOwn :
      (w : W) (st : Turns S W)
      → Reach hex users msgs (new_turns w) st
      → All (ToOwn st.sessions) st.log
  log-ToOwn w st reach = (Reach-IsAddressed reach (new_turns-IsAddressed w)).to_own
