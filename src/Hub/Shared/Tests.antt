-- ===== src/Hub/Shared/Tests.antt =====
-- Ann has a stream, somebody sends to her, and she opens another one while her map is read.
use rea_time_chat_g_rpc.Base.{
  ℕ, ◌≡◌, ◌≢◌, refl, some, [], ◌∷◌, text_discrete, ℕ_discrete, lookup, insert, erase,
}
use rea_time_chat_g_rpc.Hub.{new_connection_hub, conn}
use rea_time_chat_g_rpc.Hub.Histories.{run}
use rea_time_chat_g_rpc.Hub.Samples.{net}
use rea_time_chat_g_rpc.Hub.Shared.{
  Shared, new_shared, register_at, unregister_at, row_at, conn_at, rows_after,
}
use rea_time_chat_g_rpc.Hub.Shared.Steps as Steps
use rea_time_chat_g_rpc.Hub.Shared.Steps.{Reach, here, next}
use rea_time_chat_g_rpc.Hub.Shared.Linear.{history, steps_linearize}
use rea_time_chat_g_rpc.Samples.{ann}

abbrev ann_opened : Shared ℕ
ann_opened = register_at ann 5 new_shared

abbrev read : Shared ℕ
read = record ann_opened { ranging = (ann, 0) ∷ [] }

abbrev ann_opened_again : Shared ℕ
ann_opened_again = register_at ann 6 read

program : Unit {0}
unfolding new_shared register_at unregister_at row_at rows_after conn_at lookup insert erase
    text_discrete ℕ_discrete
program = tt

ann_opened_found : lookup text_discrete ann ann_opened.rows ≡ some 0
unfolding program
ann_opened_found = refl

ann_opened_full : ann_opened.heap 0 ≢ []
unfolding program
ann_opened_full e = cc

read_reached : Reach new_shared read
unfolding program
read_reached =
    next (next here (Steps.registers ann 5)) (Steps.looks ann 0 ann_opened_found ann_opened_full)

abbrev ann_opened_reached : Reach new_shared ann_opened_again
ann_opened_reached = next read_reached (Steps.registers ann 6)

steps_linearize_example :
    conn_at ann 2 ann_opened_again
    ≡ conn ann 2 (run net (λ c. c) (history ann_opened_reached) new_connection_hub []).0
steps_linearize_example = steps_linearize net (λ c. c) [] ann_opened_again ann_opened_reached ann 2
