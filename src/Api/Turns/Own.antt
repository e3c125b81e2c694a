-- ===== src/Api/Turns/Own.antt =====
-- The turns of one handler.
use rea_time_chat_g_rpc.Base.{
  ℕ, ◌≡◌, ◌≢◌, ◌∙◌, refl, Option, none, some, Text, ok, err, arith, Result,
}
use rea_time_chat_g_rpc.Errors.{Error}
use rea_time_chat_g_rpc.Data.Models.{Message}
use rea_time_chat_g_rpc.Api.Stores.{UsersStore, MessagesStore}
use rea_time_chat_g_rpc.Api.Turns.State.{
  Handler, Turns, moved, after_save, saved, picked, unregistered,
}
use rea_time_chat_g_rpc.Api.Turns.{
  Step, opens, receives, ends, checks, saves, acked, looks, picks, sent, stops, clears, cleared,
  leaves,
}

module _ {S W : Type 0} (hex : ℕ → Text) (users : UsersStore W) (msgs : MessagesStore W) where
  -- The handler that takes a step; a handler that starts is not among them yet.
  abbrev pub mover : {st k : Turns S W} → Step hex users msgs st k → Option ℕ
  mover (opens call claims stream auth) = none
  mover (receives i x req at now here_) = some i
  mover (ends i x e at last) = some i
  mover (checks i x req at now here_) = some i
  mover (saves i x req at now here_) = some i
  mover (acked i x to resp e at) = some i
  mover (looks i x to resp at) = some i
  mover (picks i x d id s at found fresh) = some i
  mover (sent i x d id s e at) = some i
  mover (stops i x d at all) = some i
  mover (clears i x to id ids at) = some i
  mover (cleared i x to at) = some i
  mover (leaves i x at) = some i

  abbrev pub OwnStep : ℕ → Turns S W → Turns S W → Type 0
  OwnStep i st k = (step : Step hex users msgs st k) × (mover step ≡ some i)

  -- A run in which this handler alone takes steps
  pub data OwnReach (i : ℕ) (st : Turns S W) : Turns S W → Type 0 where
    rests : OwnReach i st st
    turns : {k l : Turns S W} → OwnReach i st k → OwnStep i k l → OwnReach i st l

  after_save-others :
      (i j : ℕ) (x : Handler S) (to : Text) (r : Result Error Message) (st : Turns S W)
      → i ≢ j
      → (after_save hex i x to r st).handlers j ≡ st.handlers j
  unfolding after_save moved
  after_save-others i j x to (err e) st n = ground arith
  after_save-others i j x to (ok m) st n = ground arith

  Step-others :
      (i j : ℕ) {st k : Turns S W} (step : Step hex users msgs st k)
      → mover step ≡ some i
      → i ≢ j
      → k.handlers j ≡ st.handlers j
  unfolding moved saved picked unregistered
  Step-others i j (opens call claims stream auth) e n = absurd (ground arith)
  Step-others i j (receives k x req at now here_) e n = ground arith
  Step-others i j (ends k x f at last) e n = ground arith
  Step-others i j (checks k x req at now here_) e n = ground arith
  Step-others i j (saves k x req at now here_) e n =
      let other : k ≢ j = λ same. n (ground (arith, same)) in
      after_save-others k j x req.to_email _ _ other
  Step-others i j (acked k x to resp f at) e n = ground arith
  Step-others i j (looks k x to resp at) e n = ground arith
  Step-others i j (picks k x d id s at found fresh) e n = ground arith
  Step-others i j (sent k x d id s f at) e n = ground arith
  Step-others i j (stops k x d at all) e n = ground arith
  Step-others i j (clears k x to id ids at) e n = ground arith
  Step-others i j (cleared k x to at) e n = ground arith
  Step-others i j (leaves k x at) e n = ground arith

  -- The others stay where they were.
  pub OwnReach-others :
      {i : ℕ} {st k : Turns S W} → OwnReach i st k → (j : ℕ) → i ≢ j → k.handlers j ≡ st.handlers j
  OwnReach-others rests j n = refl
  OwnReach-others {i} (turns r (step, e)) j n = Step-others i j step e n ∙ OwnReach-others r j n
