-- ===== src/RateLimit/Memory.antt =====
-- How many clients the store holds.
use rea_time_chat_g_rpc.Base.{
  ℕ, suc, ◌+◌, ◌*◌, ◌≤◌, ◌≡◌, inl, inr, Bool, some, List, [], ◌∷◌, arith, Text, text_discrete,
  lookup, insert, length, count, leb, if◌then◌else◌, Option-cases,
}
use rea_time_chat_g_rpc.RateLimit.{
  RateLib, ClientEntry, LimiterStore, minute, expire, cleanup, get_limiter, write_limiter, allow,
}
use rea_time_chat_g_rpc.RateLimit.History.{Event, allows, cleans}

-- A reading of the clock no earlier than ten minutes before `now`.
abbrev pub is_recent : ℕ → ℕ → Bool
is_recent now seen = leb now (seen + 10 * minute)

abbrev is_kept : {Limiter : Type 0} → ℕ → Text × ClientEntry Limiter → Bool
is_kept now (k, e) = is_recent now e.last_seen

-- The calls of `Allow` that looked up their limiter in the ten minutes before `now`.
abbrev pub recent_calls : ℕ → List Event → ℕ
recent_calls now [] = 0
recent_calls now (allows seen later k ∷ events) =
    let rest = recent_calls now events in if is_recent now seen then suc rest else rest
recent_calls now (cleans at ∷ events) = recent_calls now events

module _ {Limiter : Type 0} (now : ℕ) where
  count-insert :
      (k : Text) (e : ClientEntry Limiter) (m : List (Text × ClientEntry Limiter))
      → count (is_kept now) (insert text_discrete k e m) ≤ count (is_kept now) ((k, e) ∷ m)
  unfolding insert
  count-insert k e [] = ground arith
  count-insert k e ((j, d) ∷ m) = ground (arith, count-insert k e m)

  count-rewrite :
      (k : Text) (l : Limiter) (e : ClientEntry Limiter) (m : List (Text × ClientEntry Limiter))
      → lookup text_discrete k m ≡ some e
      → count (is_kept now) (insert text_discrete k (record e { limiter = l }) m)
        ≡ count (is_kept now) m
  unfolding insert lookup
  count-rewrite k l e [] found = absurd (ground arith)
  count-rewrite k l e ((j, d) ∷ m) found = ground (arith, count-rewrite k l e m)

  count-expire :
      (at : ℕ) (m : List (Text × ClientEntry Limiter))
      → count (is_kept now) (expire at m) ≤ count (is_kept now) m
  unfolding expire
  count-expire at [] = ground arith
  count-expire at ((k, e) ∷ m) = ground (arith, count-expire at m)

  length-expire :
      (m : List (Text × ClientEntry Limiter)) → length (expire now m) ≡ count (is_kept now) m
  unfolding expire
  length-expire [] = ground arith
  length-expire ((k, e) ∷ m) = ground (arith, length-expire m)

module _ {Limit Limiter : Type 0} (lib : RateLib Limit Limiter) where
  -- The store after a history.
  pub after : List Event → LimiterStore Limit Limiter → LimiterStore Limit Limiter
  after [] s = s
  after (allows seen later k ∷ events) s = after events (allow lib seen later k s).1
  after (cleans at ∷ events) s = after events (cleanup at s)

  count-get_limiter :
      (now seen : ℕ) (k : Text) (s : LimiterStore Limit Limiter)
      → let before = count (is_kept now) s.clients in
        count (is_kept now) (get_limiter lib seen k s).1.clients
        ≤ (if is_recent now seen then suc before else before)
  unfolding get_limiter
  count-get_limiter now seen k s = elim (Option-cases (lookup text_discrete k s.clients)) [
    | inl e ↦
        let fresh : ClientEntry Limiter = record {
          limiter = lib.new_limiter s.limit s.burst;
          last_seen = seen;
        } in
        ground (arith, count-insert now k fresh s.clients)
    | inr (d, e) ↦ ground (arith, count-insert now k (record d { last_seen = seen }) s.clients)
  ]

  count-write_limiter :
      (now : ℕ) (k : Text) (l : Limiter) (s : LimiterStore Limit Limiter)
      → count (is_kept now) (write_limiter k l s).clients ≡ count (is_kept now) s.clients
  unfolding write_limiter
  count-write_limiter now k l s = elim (Option-cases (lookup text_discrete k s.clients)) [
    | inl e ↦ ground arith
    | inr (d, e) ↦ ground (arith, count-rewrite now k l d s.clients e)
  ]

  count-allow :
      (now seen later : ℕ) (k : Text) (s : LimiterStore Limit Limiter)
      → let before = count (is_kept now) s.clients in
        count (is_kept now) (allow lib seen later k s).1.clients
        ≤ (if is_recent now seen then suc before else before)
  unfolding allow
  count-allow now seen later k s =
      let (l, s') = get_limiter lib seen k s in
      rw (count-write_limiter now k (lib.allow later l).1 s') (count-get_limiter now seen k s)

  count-after :
      (now : ℕ) (events : List Event) (s : LimiterStore Limit Limiter)
      → count (is_kept now) (after events s).clients
        ≤ recent_calls now events + count (is_kept now) s.clients
  unfolding after cleanup
  count-after now [] s = ground arith
  count-after now (allows seen later k ∷ events) s =
      ground
        (arith, count-after now events (allow lib seen later k s).1, count-allow now seen later k s)
  count-after now (cleans at ∷ events) s =
      ground (arith, count-after now events (cleanup at s), count-expire now at s.clients)

  -- After any history of calls and clean-ups of a store that starts without clients, a clean-up leaves
  -- no more clients than there were calls that looked up their limiter no earlier than ten minutes before
  -- it.
  pub cleanup-length :
      (now : ℕ) (events : List Event) (s : LimiterStore Limit Limiter)
      → s.clients ≡ []
      → length (cleanup now (after events s)).clients ≤ recent_calls now events
  unfolding cleanup
  cleanup-length now events s empty =
      ground (arith, length-expire now (after events s).clients, count-after now events s)
