-- ===== src/Api/Turns/Answers.antt =====
-- Bob has two streams, of which the second one is broken, and writes to himself.
use rea_time_chat_g_rpc.Base.{ℕ, refl, arith, Option, none, some, ℕ_discrete, ◌==◌, if◌then◌else◌}
use rea_time_chat_g_rpc.Errors.{Error, eof}
use rea_time_chat_g_rpc.Auth.Samples.{bob_claims}
use rea_time_chat_g_rpc.Hub.{ConnectionHub, new_connection_hub, register}
use rea_time_chat_g_rpc.Hub.Shared.{new_shared}
use rea_time_chat_g_rpc.Hub.Shared.Rows.{Same, new_shared-Same, register-Same}
use rea_time_chat_g_rpc.Api.Handlers.Chat.{serve}
use rea_time_chat_g_rpc.Api.Turns.State.{receiving, new_turns, opened}
use rea_time_chat_g_rpc.Api.Turns.AloneMoves.{fated}
use rea_time_chat_g_rpc.Api.Turns.Alone.{LeavesAlone, serves_alone}
use rea_time_chat_g_rpc.Api.Turns.Tests.{hex, users, msgs, req, bob_at, both_open}
use rea_time_chat_g_rpc.Samples.{bob}

abbrev fate : ℕ → Option Error
fate s = if s == 9 then some eof else none

abbrev one_open : ConnectionHub ℕ
one_open = (register bob 4 new_connection_hub).0

abbrev hub : ConnectionHub ℕ
hub = (register bob 9 one_open).0

both_open-Same : Same both_open.hub hub
unfolding new_turns opened register new_connection_hub
both_open-Same =
    register-Same bob 9 _ one_open (omega arith)
      (register-Same bob 4 _ new_connection_hub (omega arith) new_shared-Same)

serves_alone_example :
    LeavesAlone hex users msgs fate
      (λ conns. conns)
      (λ m u. (u, λ k. refl))
      both_open
      0
      (bob_at 4 1 receiving)
      (serve hex users msgs (fated fate) (λ conns. conns) bob_claims 4 req 5 6 (some hub) 0)
unfolding new_turns opened ℕ_discrete new_shared
serves_alone_example =
    serves_alone hex users msgs fate (λ conns. conns) (λ m u. (u, λ k. refl)) both_open 0
      (bob_at 4 1 receiving) req 5 6 hub (refl, refl) both_open-Same
