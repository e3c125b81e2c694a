-- ===== src/RateLimit/Shared.antt =====
-- internal/middleware/ratelimit.go in smaller steps: the limiters are objects of a heap, since `Allow`
-- draws from its limiter after `getLimiter` has released the lock, when other calls and the clean-up may
-- come in between.
pub mod Calls
pub mod Lookups
pub mod Draws
mod Tests
use rea_time_chat_g_rpc.Base.{
  ℕ, ◌+◌, ◌≤◌, Bool, Option, none, some, List, [], ◌∷◌, Text, text_discrete, lookup, insert,
  get_elem?, without, update,
}
use rea_time_chat_g_rpc.RateLimit.{RateLib, ClientEntry, LimiterStore, expire}

-- A call of `Allow` that has its limiter and has not drawn from it; `looked_up` is when it got it.
pub record Call : Type 0 where
  pub key : Text
  pub limiter : ℕ
  pub looked_up : ℕ

-- `clients` holds the addresses of the limiters, `calls` the calls of `Allow` that are in flight, and
-- `answers` what the calls have answered, the last answer first.
pub record SharedLimiters (Limit Limiter : Type 0) : Type 0 where
  pub limit : Limit
  pub burst : ℕ
  pub clients : List (Text × ClientEntry ℕ)
  pub heap : ℕ → Limiter
  pub fresh : ℕ
  pub clock : ℕ
  pub calls : List Call
  pub answers : List (Text × Bool)

module _ {Limit Limiter : Type 0} (lib : RateLib Limit Limiter) where
  -- A new store, with the limit and the burst of its arguments; `idle` fills the heap, which nothing
  -- points to.
  pub new_limiters : Limit → ℕ → ℕ → Limiter → SharedLimiters Limit Limiter
  new_limiters limit burst now idle = record {
    limit = limit;
    burst = burst;
    clients = [];
    heap = λ a. idle;
    fresh = 0;
    clock = now;
    calls = [];
    answers = [];
  }

  -- `getLimiter`, under the lock
  pub get_limiter_at : Text → SharedLimiters Limit Limiter → SharedLimiters Limit Limiter
  get_limiter_at key h = elim (lookup text_discrete key h.clients) [
    | some e ↦
        let call : Call = record { key = key; limiter = e.limiter; looked_up = h.clock } in
        let seen : ClientEntry ℕ = record e { last_seen = h.clock } in
        record h { clients = insert text_discrete key seen h.clients; calls = call ∷ h.calls }
    | none ↦
        let call : Call = record { key = key; limiter = h.fresh; looked_up = h.clock } in
        let e : ClientEntry ℕ = record { limiter = h.fresh; last_seen = h.clock } in
        record h {
          clients = insert text_discrete key e h.clients;
          heap = update h.heap h.fresh (lib.new_limiter h.limit h.burst);
          fresh = h.fresh + 1;
          calls = call ∷ h.calls;
        }
  ]

  -- `return l.Allow()`, for the call `c` at place `n`
  pub draw : ℕ → Call → SharedLimiters Limit Limiter → SharedLimiters Limit Limiter
  draw n c h =
      let (yes_no, l) = lib.allow h.clock (h.heap c.limiter) in
      record h {
        heap = update h.heap c.limiter l;
        calls = without n h.calls;
        answers = (c.key, yes_no) ∷ h.answers;
      }

  abbrev pub draw_at : ℕ → SharedLimiters Limit Limiter → SharedLimiters Limit Limiter
  draw_at n h = elim (get_elem? h.calls n) [ none ↦ h | some c ↦ draw n c h ]

  -- A round of the clean-up, under the lock; `at` is the time of the `time.Now()` before it.
  pub cleanup_at : ℕ → SharedLimiters Limit Limiter → SharedLimiters Limit Limiter
  cleanup_at at h = record h { clients = expire at h.clients }

  -- The clean-up takes its time before it has the lock, so the clock may have gone on.
  pub data Step (h : SharedLimiters Limit Limiter) : SharedLimiters Limit Limiter → Type 0 where
    passes : (later : ℕ) → h.clock ≤ later → Step h (record h { clock = later })
    looks_up : (key : Text) → Step h (get_limiter_at key h)
    draws : (n : ℕ) → Step h (draw_at n h)
    cleans : (at : ℕ) → at ≤ h.clock → Step h (cleanup_at at h)

  pub data Reach (h : SharedLimiters Limit Limiter) : SharedLimiters Limit Limiter → Type 0 where
    here : Reach h h
    next : {k l : SharedLimiters Limit Limiter} → Reach h k → Step k l → Reach h l
