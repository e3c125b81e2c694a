-- ===== src/RateLimit/Samples.antt =====
-- A limiter for examples: it counts down its burst.
use rea_time_chat_g_rpc.Base.{ℕ, zero, suc, Bool, true, false}
use rea_time_chat_g_rpc.RateLimit.{RateLib}

abbrev count_down : ℕ → Bool × ℕ
count_down zero = (false, zero)
count_down (suc n) = (true, n)

-- A limiter is the number of calls that it still lets through; the rate is left out.
abbrev pub counting : RateLib ℕ ℕ
counting = record { every = λ d. d; new_limiter = λ r b. b; allow = λ now n. count_down n }
