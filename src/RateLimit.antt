-- ===== src/RateLimit.antt =====
-- internal/middleware/ratelimit.go. `golang.org/x/time/rate` is the parameter `RateLib`; times are
-- numbers of nanoseconds, and each `time.Now()` is an argument.
pub mod Isolation
pub mod History
pub mod Memory
pub mod Interceptor
pub mod Samples
pub mod Shared
mod Tests
use rea_time_chat_g_rpc.Base.{
  ℕ, zero, suc, ◌+◌, ◌-◌, ◌*◌, ◌/◌, Bool, true, false, Option, none, some, List, [], ◌∷◌, ◌++◌,
  Text, codes, text_discrete, lookup, insert, ltb, if◌then◌else◌, ℤ, pos, negsuc, Result, ok, err,
}
use rea_time_chat_g_rpc.Errors.{Status, resource_exhausted}

-- `rate.Limit`, `rate.Limiter` and what the store calls of them; `allow` takes the time of the call.
pub record RateLib (Limit Limiter : Type 0) : Type 0 where
  pub every : ℕ → Limit
  pub new_limiter : Limit → ℕ → Limiter
  pub allow : ℕ → Limiter → Bool × Limiter

pub record ClientEntry (Limiter : Type 0) : Type 0 where
  pub limiter : Limiter
  pub last_seen : ℕ

-- `stopped` says whether `stopCh` is closed.
pub record LimiterStore (Limit Limiter : Type 0) : Type 0 where
  pub limit : Limit
  pub burst : ℕ
  pub clients : List (Text × ClientEntry Limiter)
  pub cleanup_interval : ℕ
  pub stopped : Bool

abbrev pub minute : ℕ
minute = 60000000000

-- `if limitPerMinute <= 0 { limitPerMinute = 60 }`
pub per_minute : ℤ → ℕ
per_minute (pos zero) = 60
per_minute (pos (suc n)) = suc n
per_minute (negsuc n) = 60

-- `time.Now().Add(-10 * time.Minute)`; no `lastSeen` is before time 0.
abbrev pub cutoff : ℕ → ℕ
cutoff now = now - 10 * minute

-- The loop over the clients at a tick.
pub expire :
    {Limiter : Type 0} → ℕ → List (Text × ClientEntry Limiter) → List (Text × ClientEntry Limiter)
expire now [] = []
expire now ((k, v) ∷ clients) =
    if ltb v.last_seen (cutoff now) then expire now clients else (k, v) ∷ expire now clients

-- What wakes the clean-up loop.
pub data Wake : Type 0 where
  tick : ℕ → Wake
  stop_signal : Wake

module _ {Limit Limiter : Type 0} where
  pub cleanup : ℕ → LimiterStore Limit Limiter → LimiterStore Limit Limiter
  cleanup now s = record s { clients = expire now s.clients }

  -- The loop ends at the stop signal; without one it waits for more.
  pub cleanup_loop : List Wake → LimiterStore Limit Limiter → LimiterStore Limit Limiter
  cleanup_loop [] s = s
  cleanup_loop (stop_signal ∷ wakes) s = s
  cleanup_loop (tick now ∷ wakes) s = cleanup_loop wakes (cleanup now s)

  -- `none` is the panic of closing a closed channel.
  unfoldable pub stop : LimiterStore Limit Limiter → Option (LimiterStore Limit Limiter)
  stop s = if s.stopped then none else some (record s { stopped = true })

  -- `l.Allow()` changes the limiter that the store holds for the key.
  pub write_limiter : Text → Limiter → LimiterStore Limit Limiter → LimiterStore Limit Limiter
  write_limiter key l s = elim (lookup text_discrete key s.clients) [
    | none ↦ s
    | some e ↦ record s { clients = insert text_discrete key (record e { limiter = l }) s.clients }
  ]

  module _ (lib : RateLib Limit Limiter) where
    unfoldable pub new_limiter_store : ℤ → ℕ → ℕ → LimiterStore Limit Limiter
    new_limiter_store limit_per_minute burst cleanup_interval = record {
      limit = lib.every (minute / per_minute limit_per_minute);
      burst = burst;
      clients = [];
      cleanup_interval = cleanup_interval;
      stopped = false;
    }

    pub get_limiter : ℕ → Text → LimiterStore Limit Limiter → Limiter × LimiterStore Limit Limiter
    get_limiter now key s = elim (lookup text_discrete key s.clients) [
      | some e ↦ (
        e.limiter,
        record s { clients = insert text_discrete key (record e { last_seen = now }) s.clients },
      )
      | none ↦
          let limiter = lib.new_limiter s.limit s.burst in
          let e : ClientEntry Limiter = record { limiter = limiter; last_seen = now } in
          (limiter, record s { clients = insert text_discrete key e s.clients })
    ]

    -- `now` is read by `getLimiter`, `later` by the limiter.
    pub allow : ℕ → ℕ → Text → LimiterStore Limit Limiter → Bool × LimiterStore Limit Limiter
    allow now later key s =
        let (l, s') = get_limiter now key s in
        let (yes_no, l') = lib.allow later l in (yes_no, write_limiter key l' s')

-- `peer.FromContext`, with the address printed, and `GetEmail` where the request has it.
pub record Request : Type 0 where
  pub full_method : Text
  pub peer_addr : Option Text
  pub get_email : Option Text

abbrev pub addr_key : Option Text → Text
addr_key none = codes "unknown"
addr_key (some addr) = addr

-- `if e := eg.GetEmail(); e != "" { key = … }`
abbrev pub email_key : Text → Text → Text
email_key [] key = key
email_key (c ∷ e) key = codes "email:" ++ c ∷ e

unfoldable pub limit_key : Request → Text
limit_key req = elim req.get_email [
  | none ↦ addr_key req.peer_addr
  | some e ↦ email_key e (addr_key req.peer_addr)
]

-- `m[k]` of a `map[string]bool`
abbrev pub flag : Option Bool → Bool
flag none = false
flag (some b) = b

abbrev pub exceeded : Status
exceeded = record { code = resource_exhausted; format = codes "rate limit exceeded"; cause = none }

-- `handler(ctx, req)`, on the store and the rest `W` of the world.
abbrev pub Handler : Type 0 → Type 0 → Type 0 → Type 0 → Type 0
Handler Limit Limiter R W =
    LimiterStore Limit Limiter → W → Result Status R × LimiterStore Limit Limiter × W

module _ {Limit Limiter R W : Type 0} where
  -- What follows `store.Allow(key)`.
  abbrev pub after_allow :
      Handler Limit Limiter R W
      → Bool × LimiterStore Limit Limiter
      → W
      → Result Status R × LimiterStore Limit Limiter × W
  after_allow handler (true, s) w = handler s w
  after_allow handler (false, s) w = (err exceeded, s, w)

  pub rate_limit_unary_interceptor :
      RateLib Limit Limiter
      → List (Text × Bool)
      → ℕ
      → ℕ
      → Request
      → Handler Limit Limiter R W
      → LimiterStore Limit Limiter
      → W
      → Result Status R × LimiterStore Limit Limiter × W
  rate_limit_unary_interceptor lib limited_methods now later req handler s w =
      if flag (lookup text_discrete req.full_method limited_methods)
      then after_allow handler (allow lib now later (limit_key req) s) w
      else handler s w
