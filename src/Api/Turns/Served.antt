-- ===== src/Api/Turns/Served.antt =====
-- Whom a delivery has served when its loop ends.
use rea_time_chat_g_rpc.Base.{◌≡◌, ◌⊎◌, ℕ_discrete, ℕ, none, List, ◌∷◌, Text, lookup}
use rea_time_chat_g_rpc.Wire.{ChatStreamResponse}
use rea_time_chat_g_rpc.Api.Stores.{UsersStore, MessagesStore}
use rea_time_chat_g_rpc.Api.Turns.State.{Delivery, Turns}
use rea_time_chat_g_rpc.Api.Turns.Settled.{HasReturned}
use rea_time_chat_g_rpc.Api.Turns.Log.{acked_by}
use rea_time_chat_g_rpc.Api.Turns.Order.{Got}

module _ {S W : Type 0} (hex : ℕ → Text) (users : UsersStore W) (msgs : MessagesStore W) where
  -- The connection is gone, or: the last response for which the handler has called its `Send` is the last one
  -- that the handler has acknowledged, and this `Send` has returned, with an error if the id is among the
  -- failed ones, and without an error if it is among `cs`.
  abbrev pub IsServed : List ℕ → Turns S W → ℕ → Delivery → ℕ → Type 0
  IsServed cs st i d id =
      (lookup ℕ_discrete id (st.hub.heap d.row) ≡ none)
      ⊎ ((older : List ChatStreamResponse) × (acked_by i st.log ≡ d.resp ∷ older)
          × Got st.log i id d.resp older
          × HasReturned cs d id)
