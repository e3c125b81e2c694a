-- ===== src/Hub/Tests.antt =====
-- The hub at work: one user with a stream, and one with a healthy and a broken stream.
use rea_time_chat_g_rpc.Base.{
  ℕ, ◌≡◌, refl, none, List, [], ◌∷◌, arith, text_discrete, ℕ_discrete, lookup, insert, erase, ◌↔◌,
  ◌≢◌,
}
use rea_time_chat_g_rpc.Hub.{
  Conns, ConnectionHub, new_connection_hub, register, unregister, send_to_user, conn, open_row, put,
  close_row, unregister_all, send_each, send_to_conns,
}
use rea_time_chat_g_rpc.Hub.Invariant.{Inv, new_connection_hub-Inv, register-Inv}
use rea_time_chat_g_rpc.Hub.Views.{view, send_to_user-any_order}
use rea_time_chat_g_rpc.Hub.Delivery.{Visits}
use rea_time_chat_g_rpc.Hub.Histories.{
  Action, registers, unregisters, sends, run, fate, conn-run, run-Inv,
}
use rea_time_chat_g_rpc.Hub.Samples.{broken, net, net_fates, net-Log, hello}
use rea_time_chat_g_rpc.Samples.{ann, bob}

abbrev h0 : ConnectionHub ℕ
h0 = new_connection_hub

abbrev h1 : ConnectionHub ℕ
h1 = (register ann 5 h0).0

abbrev h2 : ConnectionHub ℕ
h2 = (register bob 4 h1).0

abbrev h3 : ConnectionHub ℕ
h3 = (register bob 7 h2).0

h1-Inv : Inv h1
unfolding new_connection_hub
h1-Inv = register-Inv ann 5 h0 new_connection_hub-Inv (omega arith)

h2-Inv : Inv h2
unfolding register new_connection_hub
h2-Inv = register-Inv bob 4 h1 h1-Inv (omega arith)

h3-Inv : Inv h3
unfolding register new_connection_hub
h3-Inv = register-Inv bob 7 h2 h2-Inv (omega arith)

program : Unit {0}
unfolding register new_connection_hub open_row put close_row unregister unregister_all send_to_user
    send_to_conns send_each conn lookup insert erase text_discrete ℕ_discrete
program = tt

-- An order that begins with the second connection.
abbrev second_first : Conns ℕ → Conns ℕ
second_first [] = []
second_first (c ∷ []) = c ∷ []
second_first (c ∷ d ∷ cs) = d ∷ c ∷ cs

second_first-Visits : Visits second_first
second_first-Visits [] p = refl
second_first-Visits (c ∷ []) p = refl
second_first-Visits (c ∷ d ∷ cs) p = ground arith

send_to_user-any_order_example :
    let (e, h', w') = send_to_user net (λ conns. conns) bob hello h3 [] in
    let (e', h'', w'') = send_to_user net second_first bob hello h3 [] in
    (view h' ≡ view h'')
    × ((t : ℕ) → net-Log.received w' t ≡ net-Log.received w'' t)
    × ((e ≢ none) ↔ (e' ≢ none))
send_to_user-any_order_example =
    send_to_user-any_order net broken net_fates net-Log hello (λ conns. conns) second_first bob h3
      [] (λ conns p. refl) second_first-Visits h3-Inv

abbrev day_of_calls : List (Action ℕ)
day_of_calls =
    registers ann 5 ∷ registers bob 7 ∷ registers bob 4 ∷ sends bob hello ∷ unregisters ann 1 ∷ []

-- The second connection was Bob's broken stream.
conn-run_example : conn bob 2 (run net (λ conns. conns) day_of_calls h0 []).0 ≡ none
unfolding program fate
conn-run_example =
    conn-run net (λ conns. conns) broken net_fates (λ conns p. refl) bob 2 day_of_calls h0 []
      new_connection_hub-Inv (omega arith)

run-Inv_example : Inv (run net (λ conns. conns) day_of_calls h0 []).0
unfolding new_connection_hub
run-Inv_example =
    run-Inv net (λ conns. conns) broken net_fates (λ conns p. refl) day_of_calls h0 []
      new_connection_hub-Inv (omega arith)
