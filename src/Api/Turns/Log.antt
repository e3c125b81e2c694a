-- ===== src/Api/Turns/Log.antt =====
-- The log of the calls of `Send`, seen from one handler.
use rea_time_chat_g_rpc.Base.{ℕ, List, [], ◌∷◌, ◌==◌, if◌then◌else◌, ◌&&◌}
use rea_time_chat_g_rpc.Wire.{ChatStreamResponse}
use rea_time_chat_g_rpc.Api.Turns.State.{Sent, acks, delivers}

module _ {S : Type 0} where
  -- The acknowledgements of a handler, the last one first.
  unfoldable pub acked_by : ℕ → List (Sent S) → List ChatStreamResponse
  acked_by i [] = []
  acked_by i (acks j s resp ∷ log) =
      let rest = acked_by i log in if i == j then resp ∷ rest else rest
  acked_by i (delivers j to id s resp ∷ log) = acked_by i log

  -- What a handler has sent for a connection, the last response first.
  unfoldable pub delivered_by : ℕ → ℕ → List (Sent S) → List ChatStreamResponse
  delivered_by i id [] = []
  delivered_by i id (acks j s resp ∷ log) = delivered_by i id log
  delivered_by i id (delivers j to k s resp ∷ log) =
      let rest = delivered_by i id log in if (i == j) && (id == k) then resp ∷ rest else rest
