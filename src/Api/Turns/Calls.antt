-- ===== src/Api/Turns/Calls.antt =====
-- The calls of `Register` and `Unregister` that the handlers of the chat streams make, and the hub after them.
use rea_time_chat_g_rpc.Base.{
  ℕ, ◌<◌, ◌≡◌, ◌∙◌, refl, subst, sym, append-nil, none, List, [], ◌∷◌, ◌++◌, arith, Text, lookup,
  length, false, Result, ok, err,
}
use rea_time_chat_g_rpc.Errors.{Error}
use rea_time_chat_g_rpc.Wire.{StreamSender}
use rea_time_chat_g_rpc.Data.Models.{Message}
use rea_time_chat_g_rpc.Hub.{int64_mod, new_connection_hub, conn}
use rea_time_chat_g_rpc.Hub.Invariant.{new_connection_hub-Inv}
use rea_time_chat_g_rpc.Hub.Histories.{
  Action, registers, unregisters, run, run-registers, run-unregisters, fate, conn-run,
}
use rea_time_chat_g_rpc.Hub.Shared.{Shared, register_at, unregister_at, conn_at}
use rea_time_chat_g_rpc.Hub.Shared.Steps.{
  Separate, new_shared-Separate, register_at-Separate, unregister_at-Separate,
}
use rea_time_chat_g_rpc.Hub.Shared.Linear.{Shows, new-Shows, register-Shows, unregister-Shows}
use rea_time_chat_g_rpc.Api.Stores.{UsersStore, MessagesStore}
use rea_time_chat_g_rpc.Api.Turns.State.{
  Handler, Turns, new_turns, moved, opened, after_save, saved, picked, unregistered,
}
use rea_time_chat_g_rpc.Api.Turns.{
  Step, opens, receives, ends, checks, saves, acked, looks, picks, sent, stops, clears, cleared,
  leaves, Reach, here, next,
}

-- The streams of a specification in which no `Send` happens.
abbrev quiet : {S : Type 0} → StreamSender S (Unit {0})
quiet = record { send = λ s resp u. (none, u) }

module _ {S W : Type 0} (hex : ℕ → Text) (users : UsersStore W) (msgs : MessagesStore W) where
  -- The call of a step, if it makes one.
  unfoldable pub call_of : {st k : Turns S W} → Step hex users msgs st k → List (Action S)
  call_of (opens call claims stream auth) = registers claims.email stream ∷ []
  call_of (clears i x to id ids at) = unregisters to id ∷ []
  call_of (leaves i x at) = unregisters x.session.claims.email x.session.conn_id ∷ []
  call_of (receives i x req at now here_) = []
  call_of (ends i x e at last) = []
  call_of (checks i x req at now here_) = []
  call_of (saves i x req at now here_) = []
  call_of (acked i x to resp e at) = []
  call_of (looks i x to resp at) = []
  call_of (picks i x d id s at found fresh) = []
  call_of (sent i x d id s e at) = []
  call_of (stops i x d at all) = []
  call_of (cleared i x to at) = []

  -- The calls of a run, in the order in which they held the lock.
  unfoldable pub calls : {st k : Turns S W} → Reach hex users msgs st k → List (Action S)
  calls here = []
  calls (next r step) = calls r ++ call_of step

  hub-after_save :
      (i : ℕ) (x : Handler S) (to : Text) (r : Result Error Message) (st : Turns S W)
      → (after_save hex i x to r st).hub ≡ st.hub
  unfolding after_save moved
  hub-after_save i x to (err e) st = refl
  hub-after_save i x to (ok m) st = refl

  -- The hub of the handlers is as it is after these calls one by one.
  Told : Shared S → List (Action S) → Type 0
  Told h actions = Separate h × Shows h (run quiet (λ conns. conns) actions new_connection_hub tt).0

  registers-Told :
      (email : Text) (s : S) (h : Shared S) (actions : List (Action S))
      → Told h actions
      → Told (register_at email s h) (actions ++ registers email s ∷ [])
  unfolding Told
  registers-Told email s h actions (v, same) = (
    register_at-Separate email s h v,
    rw (run-registers quiet (λ conns. conns) actions email s new_connection_hub tt)
        (register-Shows email s h _ v same),
  )

  unregisters-Told :
      (email : Text) (id : ℕ) (h : Shared S) (actions : List (Action S))
      → Told h actions
      → Told (unregister_at email id h) (actions ++ unregisters email id ∷ [])
  unfolding Told
  unregisters-Told email id h actions (v, same) = (
    unregister_at-Separate email id h v,
    rw (run-unregisters quiet (λ conns. conns) actions email id new_connection_hub tt)
        (unregister-Shows email id h _ v same),
  )

  no_call-Told :
      (h : Shared S) (actions : List (Action S)) → Told h actions → Told h (actions ++ [])
  no_call-Told h actions v = subst (Told h) (sym (append-nil actions)) v

  Step-Told :
      {st k : Turns S W} (step : Step hex users msgs st k) (actions : List (Action S))
      → Told st.hub actions
      → Told k.hub (actions ++ call_of step)
  unfolding call_of moved opened saved picked unregistered
  Step-Told {st} (opens call claims stream auth) acts v =
      registers-Told claims.email stream st.hub acts v
  Step-Told {st} (clears i x to id ids at) acts v = unregisters-Told to id st.hub acts v
  Step-Told {st} (leaves i x at) acts v =
      unregisters-Told x.session.claims.email x.session.conn_id st.hub acts v
  Step-Told {st} (receives i x req at now here_) acts v = no_call-Told st.hub acts v
  Step-Told {st} (ends i x e at last) acts v = no_call-Told st.hub acts v
  Step-Told {st} (checks i x req at now here_) acts v = no_call-Told st.hub acts v
  Step-Told {st} (saves i x req at now here_) acts v =
      rw (hub-after_save i x req.to_email _ _) (no_call-Told st.hub acts v)
  Step-Told {st} (acked i x to resp e at) acts v = no_call-Told st.hub acts v
  Step-Told {st} (looks i x to resp at) acts v = no_call-Told st.hub acts v
  Step-Told {st} (picks i x d id s at found fresh) acts v = no_call-Told st.hub acts v
  Step-Told {st} (sent i x d id s e at) acts v = no_call-Told st.hub acts v
  Step-Told {st} (stops i x d at all) acts v = no_call-Told st.hub acts v
  Step-Told {st} (cleared i x to at) acts v = no_call-Told st.hub acts v

  Reach-Told :
      (w : W) {st : Turns S W} (r : Reach hex users msgs (new_turns w) st) → Told st.hub (calls r)
  unfolding Told calls new_turns run
  Reach-Told w here = (new_shared-Separate, new-Shows)
  Reach-Told w (next r step) = Step-Told step (calls r) (Reach-Told w r)

  -- In whatever order the handlers of the chat streams take their turns, down to the start and the end of
  -- each `Send`: a connection of the hub is what the specification of this one connection says of the calls
  -- of `Register` and `Unregister` that the handlers have made, in the order in which they held the lock, as
  -- long as there were fewer than 2 ^ 64 of them.
  pub conn_at-calls :
      (w : W) (st : Turns S W) (r : Reach hex users msgs (new_turns w) st) (email : Text) (id : ℕ)
      → length (calls r) < int64_mod
      → conn_at email id st.hub ≡ fate (λ s. false) email id (calls r) 0 none
  unfolding Told new_connection_hub conn lookup
  conn_at-calls w st r email id room =
      (Reach-Told w r).1.conns email id
      ∙ conn-run quiet (λ conns. conns) (λ s. false) (λ s m u. refl) (λ conns p. refl) email id
          (calls r) new_connection_hub tt new_connection_hub-Inv (omega arith)
