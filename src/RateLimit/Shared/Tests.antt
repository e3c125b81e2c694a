-- ===== src/RateLimit/Shared/Tests.antt =====
-- Ann looks up her limiter, Bob looks up his and draws, and the clean-up runs before Ann draws.
use rea_time_chat_g_rpc.Base.{
  ℕ, ◌+◌, ◌*◌, ◌≤◌, ◌≡◌, ◌≢◌, refl, arith, true, some, [], ◌∷◌, Text, text_discrete, ℕ_discrete,
  lookup, insert,
}
use rea_time_chat_g_rpc.RateLimit.{ClientEntry, minute, expire}
use rea_time_chat_g_rpc.RateLimit.Samples.{counting}
use rea_time_chat_g_rpc.RateLimit.Shared.{
  Call, SharedLimiters, new_limiters, get_limiter_at, draw, draw_at, cleanup_at, Reach, here, next,
  passes, looks_up, draws, cleans,
}
use rea_time_chat_g_rpc.RateLimit.Shared.Draws.{calls_in_flight}
use rea_time_chat_g_rpc.Samples.{ann, bob}

program : Unit {0}
unfolding new_limiters get_limiter_at draw cleanup_at expire lookup insert text_discrete ℕ_discrete
program = tt

abbrev fresh_store : SharedLimiters ℕ ℕ
fresh_store = new_limiters counting 60 1 0 0

abbrev both_called : SharedLimiters ℕ ℕ
both_called = get_limiter_at counting bob (get_limiter_at counting ann fresh_store)

abbrev bob_answered : SharedLimiters ℕ ℕ
bob_answered = draw_at counting 0 both_called

abbrev ten_minutes_on : SharedLimiters ℕ ℕ
ten_minutes_on = record bob_answered { clock = 10 * minute }

abbrev cleaned : SharedLimiters ℕ ℕ
cleaned = cleanup_at counting (10 * minute) ten_minutes_on

abbrev ann_call : Call
ann_call = record { key = ann; limiter = 0; looked_up = 0 }

-- Ann has a look-up 11 minutes ago, and the clean-up has forgotten her limiter.
abbrev forgotten : SharedLimiters ℕ ℕ
forgotten = cleanup_at counting (11 * minute) (record bob_answered { clock = 11 * minute })

calls_example : cleaned.calls ≡ ann_call ∷ []
unfolding program
calls_example = refl

answers_example : (draw_at counting 0 cleaned).answers ≡ (ann, true) ∷ (bob, true) ∷ []
unfolding program
answers_example = refl

forgotten_example : (forgotten.clients ≡ []) × (forgotten.calls ≡ ann_call ∷ [])
unfolding program
forgotten_example = (refl, refl)

cleaned_reached : Reach counting (new_limiters counting 60 1 0 0) cleaned
unfolding program
cleaned_reached =
    next
      (next (next (next (next here (looks_up ann)) (looks_up bob)) (draws 0))
        (passes (10 * minute) (omega arith)))
      (cleans (10 * minute) (omega arith))

calls_in_flight_example :
    ((k : Text) (e : ClientEntry ℕ)
      → lookup text_discrete k cleaned.clients ≡ some e
      → k ≢ ann
      → (draw_at counting 0 cleaned).heap e.limiter ≡ cleaned.heap e.limiter)
    × (10 * minute ≤ 0 + 10 * minute
        → (e : ClientEntry ℕ) × (lookup text_discrete ann cleaned.clients ≡ some e)
          × let (yes_no, l) = counting.allow (10 * minute) (cleaned.heap e.limiter) in
            ((draw_at counting 0 cleaned).answers ≡ (ann, yes_no) ∷ cleaned.answers)
            × ((draw_at counting 0 cleaned).heap e.limiter ≡ l))
unfolding program
calls_in_flight_example = calls_in_flight counting 60 1 0 0 cleaned 0 ann_call cleaned_reached refl
