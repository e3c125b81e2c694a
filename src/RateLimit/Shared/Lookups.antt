-- ===== src/RateLimit/Shared/Lookups.antt =====
-- What a look-up leaves of the other calls.
use rea_time_chat_g_rpc.Base.{
  ℕ, ◌+◌, ◌*◌, ◌≤◌, ◌<◌, ◌≡◌, sym, subst, none, some, ◌∷◌, arith, Text, text_discrete, lookup,
  lookup-insert, UniqueKeys, insert-UniqueKeys, All, All-map, Option-cases, inl, inr, ite,
}
use rea_time_chat_g_rpc.RateLimit.{RateLib, ClientEntry, minute}
use rea_time_chat_g_rpc.RateLimit.Shared.{Call, SharedLimiters, get_limiter_at}
use rea_time_chat_g_rpc.RateLimit.Shared.Calls.{Current, InFlight, Apart}

module _ {Limit Limiter : Type 0} where
  module _ (lib : RateLib Limit Limiter) where
    -- The limiter that `getLimiter` finds or makes.
    abbrev found_at : Text → SharedLimiters Limit Limiter → ℕ
    found_at key h = elim (lookup text_discrete key h.clients) [
      | none ↦ h.fresh
      | some e ↦ e.limiter
    ]

    module _ (key : Text) (h : SharedLimiters Limit Limiter) where
      lookup-get_limiter_at :
          (k : Text)
          → lookup text_discrete k (get_limiter_at lib key h).clients
            ≡ ite
                (text_discrete key k)
                (some (record { limiter = found_at key h; last_seen = h.clock }))
                (lookup text_discrete k h.clients)
      unfolding get_limiter_at
      lookup-get_limiter_at k = elim (Option-cases (lookup text_discrete key h.clients)) [
        | inl p ↦
            let e : ClientEntry ℕ = record { limiter = h.fresh; last_seen = h.clock } in
            ground (arith, lookup-insert text_discrete key k e h.clients)
        | inr (c, p) ↦
            let e : ClientEntry ℕ = record c { last_seen = h.clock } in
            ground (arith, lookup-insert text_discrete key k e h.clients)
      ]

      calls-get_limiter_at :
          (get_limiter_at lib key h).calls
          ≡ record { key = key; limiter = found_at key h; looked_up = h.clock } ∷ h.calls
      unfolding get_limiter_at
      calls-get_limiter_at = ground arith

      clock-get_limiter_at : (get_limiter_at lib key h).clock ≡ h.clock
      unfolding get_limiter_at
      clock-get_limiter_at = ground arith

      fresh-get_limiter_at :
          (h.fresh ≤ (get_limiter_at lib key h).fresh)
          × (lookup text_discrete key h.clients ≡ none
              → (get_limiter_at lib key h).fresh ≡ h.fresh + 1)
      unfolding get_limiter_at
      fresh-get_limiter_at = (ground arith, λ p. ground arith)

      unique-get_limiter_at :
          UniqueKeys text_discrete h.clients
          → UniqueKeys text_discrete (get_limiter_at lib key h).clients
      unfolding get_limiter_at
      unique-get_limiter_at u = elim (Option-cases (lookup text_discrete key h.clients)) [
        | inl p ↦
            let e : ClientEntry ℕ = record { limiter = h.fresh; last_seen = h.clock } in
            ground (arith, insert-UniqueKeys text_discrete key e h.clients u)
        | inr (c, p) ↦
            let e : ClientEntry ℕ = record c { last_seen = h.clock } in
            ground (arith, insert-UniqueKeys text_discrete key e h.clients u)
      ]

      module _ (v : Apart h) where
        -- The limiter that is found belongs to the key, or is new.
        found_at-key :
            (k : Text) (e : ClientEntry ℕ)
            → lookup text_discrete k h.clients ≡ some e
            → e.limiter ≡ found_at key h
            → k ≡ key
        found_at-key k e p same = elim (Option-cases (lookup text_discrete key h.clients)) [
          | inl q ↦ absurd (ground (arith, v.known k e p))
          | inr (d, q) ↦ v.apart k key e d p q (ground arith)
        ]

        found_at-below : found_at key h < (get_limiter_at lib key h).fresh
        found_at-below = elim (Option-cases (lookup text_discrete key h.clients)) [
          | inl q ↦ ground (arith, fresh-get_limiter_at)
          | inr (d, q) ↦ ground (arith, fresh-get_limiter_at, v.known key d q)
        ]

        known-get_limiter_at :
            (k : Text) (e : ClientEntry ℕ)
            → lookup text_discrete k (get_limiter_at lib key h).clients ≡ some e
            → (e.limiter < (get_limiter_at lib key h).fresh)
              × (e.last_seen ≤ (get_limiter_at lib key h).clock)
        known-get_limiter_at k e p = ground (
          arith,
          lookup-get_limiter_at k,
          clock-get_limiter_at,
          fresh-get_limiter_at,
          found_at-below,
          v.known k e,
        )

        apart-get_limiter_at :
            (j k : Text) (d e : ClientEntry ℕ)
            → lookup text_discrete j (get_limiter_at lib key h).clients ≡ some d
            → lookup text_discrete k (get_limiter_at lib key h).clients ≡ some e
            → d.limiter ≡ e.limiter
            → j ≡ k
        apart-get_limiter_at j k d e p q same = ground (
          arith,
          lookup-get_limiter_at j,
          lookup-get_limiter_at k,
          found_at-key j d,
          found_at-key k e,
          v.apart j k d e,
        )

        new_call-InFlight :
            InFlight
              (get_limiter_at lib key h)
              (record { key = key; limiter = found_at key h; looked_up = h.clock })
        new_call-InFlight = record {
          below = found_at-below;
          owner = λ k e p same. ground (arith, lookup-get_limiter_at k, found_at-key k e);
          kept = λ recent. (h.clock, ground (arith, lookup-get_limiter_at key), ground arith);
        }

        kept-get_limiter_at :
            (c : Call)
            → InFlight h c
            → h.clock ≤ c.looked_up + 10 * minute
            → Current (get_limiter_at lib key h) c
        kept-get_limiter_at c o recent =
            let (seen, p, later) = o.kept recent in
            let (_, by_now) = v.known c.key (record { limiter = c.limiter; last_seen = seen }) p in
            elim (text_discrete key c.key) [
              | yes e ↦ (
                h.clock,
                ground (arith, lookup-get_limiter_at c.key),
                omega (arith, later, by_now),
              )
              | no e ↦ (seen, ground (arith, lookup-get_limiter_at c.key), later)
            ]

        found_at-call : (c : Call) → InFlight h c → found_at key h ≡ c.limiter → key ≡ c.key
        found_at-call c o same = elim (Option-cases (lookup text_discrete key h.clients)) [
          | inl q ↦ absurd (ground (arith, o.below))
          | inr (d, q) ↦ o.owner key d q (ground arith)
        ]

        old_call-InFlight : (c : Call) → InFlight h c → InFlight (get_limiter_at lib key h) c
        old_call-InFlight c o = record {
          below = let (grows, _) = fresh-get_limiter_at in omega (arith, o.below, grows);
          owner =
              λ k e p same. ground (arith, lookup-get_limiter_at k, o.owner k e, found_at-call c o);
          kept = λ recent. kept-get_limiter_at c o (omega (arith, recent, clock-get_limiter_at));
        }

        pub get_limiter_at-Apart : Apart (get_limiter_at lib key h)
        get_limiter_at-Apart = record {
          unique = unique-get_limiter_at v.unique;
          known = known-get_limiter_at;
          apart = apart-get_limiter_at;
          in_flight = subst (All (InFlight (get_limiter_at lib key h))) (sym calls-get_limiter_at) (
            new_call-InFlight,
            All-map (InFlight h) (InFlight (get_limiter_at lib key h)) h.calls old_call-InFlight
                v.in_flight,
          );
        }
