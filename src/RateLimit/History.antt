-- ===== src/RateLimit/History.antt =====
-- The store keeps one limiter for each key: for every key, a history of calls and clean-ups runs the
-- machine of that key alone.
use rea_time_chat_g_rpc.Base.{
  ℕ, ◌≡◌, refl, Bool, Option, List, [], ◌∷◌, arith, ite, Text, text_discrete, lookup, UniqueKeys,
}
use rea_time_chat_g_rpc.RateLimit.{RateLib, ClientEntry, LimiterStore, cleanup, allow}
use rea_time_chat_g_rpc.RateLimit.Isolation.{
  key_allow, key_cleanup, allow_lem, allow-UniqueKeys, settings-allow, lookup-expire,
  expire-UniqueKeys,
}

-- What happens to a store: a call of `Allow`, with its two readings of the clock, or a clean-up.
pub data Event : Type 0 where
  allows : ℕ → ℕ → Text → Event
  cleans : ℕ → Event

module _ {Limit Limiter : Type 0} (lib : RateLib Limit Limiter) where
  -- The decisions for `key` in a history of the store, oldest first.
  unfoldable pub decisions : Text → List Event → LimiterStore Limit Limiter → List Bool
  decisions key [] s = []
  decisions key (cleans now ∷ events) s = decisions key events (cleanup now s)
  decisions key (allows now later k ∷ events) s =
      let (decision, s') = allow lib now later k s in
      let rest = decisions key events s' in ite (text_discrete k key) (decision ∷ rest) rest

  -- The decisions of the machine of one key, which sees the calls for that key and the clean-ups.
  unfoldable pub key_decisions :
      Text → List Event → Limit → ℕ → Option (ClientEntry Limiter) → List Bool
  key_decisions key [] limit burst o = []
  key_decisions key (cleans now ∷ events) limit burst o =
      key_decisions key events limit burst (key_cleanup lib now o)
  key_decisions key (allows now later k ∷ events) limit burst o =
      let (decision, o') = key_allow lib now later limit burst o in
      let mine = key_decisions key events limit burst o' in
      let others = key_decisions key events limit burst o in
      ite (text_discrete k key) (decision ∷ mine) others

  -- For a store with one entry for each key: in any history of calls and clean-ups the answers to
  -- a key are those of a limiter that serves this key alone.
  pub decisions-key_decisions :
      (key : Text) (events : List Event) (s : LimiterStore Limit Limiter)
      → UniqueKeys text_discrete s.clients
      → decisions key events s
        ≡ key_decisions key events s.limit s.burst (lookup text_discrete key s.clients)
  unfolding decisions key_decisions cleanup
  decisions-key_decisions key [] s u = refl
  decisions-key_decisions key (cleans now ∷ events) s u = ground (
    arith,
    decisions-key_decisions key events (cleanup now s) (expire-UniqueKeys now s.clients u),
    lookup-expire now key s.clients u,
  )
  decisions-key_decisions key (allows now later k ∷ events) s u = ground (
    arith,
    decisions-key_decisions key events (allow lib now later k s).1
        (allow-UniqueKeys lib now later k s u),
    allow_lem lib now later k key s,
    settings-allow lib now later k s,
  )
