-- ===== src/Api/Turns/Tests.antt =====
-- Bob writes to himself and has two streams.
use rea_time_chat_g_rpc.Base.{
  ℕ, zero, suc, ◌≡◌, ◌≢◌, refl, ap, inl, inr, none, some, true, false, List, [], ◌∷◌, Text, codes,
  ok, err, arith, lookup, insert, text_discrete, ℕ_discrete, All, Has,
}
use mathlib.Core.List.{Sublist}
use rea_time_chat_g_rpc.Errors.{eof}
use rea_time_chat_g_rpc.Wire.{ChatStreamResponse}
use rea_time_chat_g_rpc.Auth.Samples.{bob_claims}
use rea_time_chat_g_rpc.Data.Models.{Message}
use rea_time_chat_g_rpc.Hub.Shared.{new_shared, register_at, unregister_at, rows_after, conn_at}
use rea_time_chat_g_rpc.Api.Html.{escape_string}
use rea_time_chat_g_rpc.Api.Stores.{UsersStore, MessagesStore}
use rea_time_chat_g_rpc.Api.Requests.{ChatStreamRequest}
use rea_time_chat_g_rpc.Api.Interceptors.{Call}
use rea_time_chat_g_rpc.Api.Handlers.Chat.{ack}
use rea_time_chat_g_rpc.Api.Turns.State.{
  Delivery, Phase, receiving, checking, saving, acking, calling, ranging, sending, Handler, acks,
  delivers, Turns, new_turns, moved, opened, after_save, saved, after_look, picked, unregistered,
}
use rea_time_chat_g_rpc.Api.Turns.{
  Reach, opens, receives, checks, saves, acked, looks, picks, sent, here, next,
}
use rea_time_chat_g_rpc.Hub.Histories.{fate}
use rea_time_chat_g_rpc.Api.Turns.Calls.{calls, call_of, conn_at-calls}
use rea_time_chat_g_rpc.Api.Turns.Failures.{failures, failure_of}
use rea_time_chat_g_rpc.Api.Turns.Connected.{runs_connected}
use rea_time_chat_g_rpc.Api.Turns.Log.{acked_by, delivered_by}
use rea_time_chat_g_rpc.Api.Turns.Delivered.{delivered_in_order}
use rea_time_chat_g_rpc.Api.Turns.Addressed.{ToOwn}
use rea_time_chat_g_rpc.Api.Turns.Recipients.{log-ToOwn}
use rea_time_chat_g_rpc.Api.Turns.Overlap.{sends_overlap}
use rea_time_chat_g_rpc.Samples.{bob}

abbrev pub hex : ℕ → Text
hex id = codes "m"

abbrev pub users : UsersStore ℕ
users = record {
  create_user = λ mail hashed now later w. (err eof, w);
  get_user_by_email = λ mail w. err eof;
  user_exists = λ mail w. ok true;
}

abbrev message : Text → Text → Text → ℕ → ℕ → Message
message from to text at now = record {
  id = 0;
  from_email = from;
  to_email = to;
  content = text;
  sent_at = at;
  created_at = now;
}

abbrev pub msgs : MessagesStore ℕ
msgs = record {
  save_message = λ from to text at now w. (ok (message from to text at now), w);
  get_recent_chats = λ mail n w. some (err eof);
  get_message_history = λ user1 user2 n w. err eof;
}

abbrev bob_call : Call
bob_call = record {
  full_method = codes "/chat.v1.ChatService/ChatStream";
  metadata = none;
  claims = some bob_claims;
}

abbrev pub req : ChatStreamRequest
req = record { to_email = bob; content = [] }

abbrev resp : ChatStreamResponse
resp = record { msg_id = codes "m"; from_email = bob; content = []; sent_at = 5 }

abbrev pub bob_at : ℕ → ℕ → Phase ℕ → Handler ℕ
bob_at stream id phase = record {
  session = record { claims = bob_claims; stream = stream; conn_id = id };
  phase = phase;
}

abbrev pub both_open : Turns ℕ ℕ
both_open = opened bob_claims 9 (opened bob_claims 4 (new_turns 0))

abbrev acking_state : Turns ℕ ℕ
acking_state = saved hex msgs 0 (bob_at 4 1 (saving req 5 6)) req 5 6 (
    moved 0 (bob_at 4 1 (checking req 5 6)) (saving req 5 6)
      (moved 0 (bob_at 4 1 receiving) (checking req 5 6) both_open))

abbrev delivery : List ℕ → List ℕ → Delivery
delivery visited failed = record {
  to = bob;
  resp = resp;
  row = 0;
  at_first = 1 ∷ 2 ∷ [];
  visited = visited;
  failed = failed;
}

abbrev first_sent : Turns ℕ ℕ
first_sent = picked 0 (bob_at 4 1 (ranging (delivery [] []))) (delivery [] []) 2 9 (
    moved 0 (bob_at 4 1 (calling bob resp)) (ranging (delivery [] []))
      (moved 0 (bob_at 4 1 (acking bob resp)) (calling bob resp) acking_state))

abbrev both_sent : Turns ℕ ℕ
both_sent = picked 0 (bob_at 4 1 (ranging (delivery (2 ∷ []) []))) (delivery (2 ∷ []) []) 1 4 (
    moved 0 (bob_at 4 1 (sending (delivery [] []) 2 9)) (ranging (delivery (2 ∷ []) [])) first_sent)

program : Unit {0}
unfolding new_turns moved opened after_save saved after_look picked unregistered new_shared
    register_at unregister_at rows_after ack escape_string acked_by delivered_by lookup insert
    text_discrete ℕ_discrete
program = tt

log_example : both_sent.log ≡ delivers 0 bob 1 4 resp ∷ delivers 0 bob 2 9 resp ∷ acks 0 4 resp ∷ []
unfolding program
log_example = refl

both_open_reached : Reach hex users msgs (new_turns 0) both_open
unfolding program
both_open_reached =
    next (next here (opens bob_call bob_claims 4 refl)) (opens bob_call bob_claims 9 refl)

first_sent_reached : Reach hex users msgs (new_turns 0) first_sent
unfolding program
first_sent_reached =
    let received =
      next both_open_reached (receives 0 (bob_at 4 1 receiving) req 5 6 (refl, refl)) in
    let found = next received (checks 0 (bob_at 4 1 (checking req 5 6)) req 5 6 (refl, refl)) in
    let stored = next found (saves 0 (bob_at 4 1 (saving req 5 6)) req 5 6 (refl, refl)) in
    let told = next stored (acked 0 (bob_at 4 1 (acking bob resp)) bob resp none (refl, refl)) in
    let looked = next told (looks 0 (bob_at 4 1 (calling bob resp)) bob resp (refl, refl)) in
    next looked (
      picks 0 (bob_at 4 1 (ranging (delivery [] []))) (delivery [] []) 2 9 (refl, refl) refl
        (λ m. m))

unvisited : ¬ Has {A = ℕ} 1 (2 ∷ [])
unvisited (inl e) = absurd (omega (arith, e))
unvisited (inr m) = m

zero_one : zero ≢ suc zero
zero_one e = absurd (omega (arith, e))

both_sent_reached : Reach hex users msgs (new_turns 0) both_sent
unfolding program
both_sent_reached =
    next
      (next first_sent_reached
        (sent 0 (bob_at 4 1 (sending (delivery [] []) 2 9)) (delivery [] []) 2 9 none (refl, refl)))
      (picks 0 (bob_at 4 1 (ranging (delivery (2 ∷ []) []))) (delivery (2 ∷ []) []) 1 4 (refl, refl)
        refl unvisited)

abbrev both_returned : Turns ℕ ℕ
both_returned =
    moved 0 (bob_at 4 1 (sending (delivery (2 ∷ []) []) 1 4))
      (ranging (delivery (1 ∷ 2 ∷ []) (1 ∷ []))) both_sent

-- The second `Send` fails.
both_returned_reached : Reach hex users msgs (new_turns 0) both_returned
unfolding program
both_returned_reached = next both_sent_reached (
    sent 0 (bob_at 4 1 (sending (delivery (2 ∷ []) []) 1 4)) (delivery (2 ∷ []) []) 1 4 (some eof)
      (refl, refl))

delivered_in_order_example : Sublist (delivered_by 0 2 both_sent.log) (acked_by 0 both_sent.log)
delivered_in_order_example = delivered_in_order hex users msgs 0 both_sent 0 2 both_sent_reached

log-ToOwn_example : All (ToOwn both_sent.sessions) both_sent.log
log-ToOwn_example = log-ToOwn hex users msgs 0 both_sent both_sent_reached

sends_overlap_example :
    (k : Turns ℕ ℕ) × Reach hex users msgs both_open k
    × ((r : ChatStreamResponse) × (k.handlers 0 ≡ some (bob_at 4 1 (acking bob r))))
    × ((d : Delivery) × (d.to ≡ bob) × (k.handlers 1 ≡ some (bob_at 9 2 (sending d 1 4))))
unfolding program
sends_overlap_example =
    sends_overlap hex users msgs both_open 0 1 (bob_at 4 1 receiving) (bob_at 9 2 receiving) req req
      5 6 0 1 zero_one (refl, (_, refl)) (refl, (_, refl)) (refl, refl) (refl, refl) refl refl

conn_at-calls_example :
    conn_at bob 2 both_returned.hub
    ≡ fate (λ s. false) bob 2 (calls hex users msgs both_returned_reached) 0 none
unfolding program calls call_of both_returned_reached both_sent_reached first_sent_reached
    both_open_reached
conn_at-calls_example =
    conn_at-calls hex users msgs 0 both_returned both_returned_reached bob 2 (omega arith)

healthy : ¬ Has (bob, 2) (failures hex users msgs both_returned_reached)
unfolding program failures failure_of both_returned_reached both_sent_reached first_sent_reached
    both_open_reached
healthy (inl e) = let one_two : 1 ≡ 2 = ap (λ k. k.1) e in absurd (omega (arith, one_two))
healthy (inr m) = m

runs_connected_example : conn_at bob 2 both_returned.hub ≡ some 9
unfolding program calls call_of both_returned_reached both_sent_reached first_sent_reached
    both_open_reached
runs_connected_example =
    runs_connected hex users msgs 0 both_returned both_returned_reached 1 (bob_at 9 2 receiving)
      (omega arith) refl refl healthy
