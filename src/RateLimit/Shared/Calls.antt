-- ===== src/RateLimit/Shared/Calls.antt =====
-- Which limiter a call of `Allow` that is in flight draws from.
use rea_time_chat_g_rpc.Base.{
  ℕ, ◌+◌, ◌*◌, ◌≤◌, ◌<◌, ◌≡◌, some, arith, Text, text_discrete, lookup, UniqueKeys, All, All-map,
}
use rea_time_chat_g_rpc.RateLimit.{RateLib, ClientEntry, minute, expire}
use rea_time_chat_g_rpc.RateLimit.Isolation.{lookup-expire, expire-UniqueKeys}
use rea_time_chat_g_rpc.RateLimit.Shared.{Call, SharedLimiters, new_limiters, cleanup_at}

module _ {Limit Limiter : Type 0} where
  -- The store has the limiter of the call under the key of the call, seen when the call looked it up or
  -- later.
  abbrev pub Current : SharedLimiters Limit Limiter → Call → Type 0
  Current h c =
      (seen : ℕ) × (lookup text_discrete c.key h.clients
        ≡ some (record { limiter = c.limiter; last_seen = seen }))
      × (c.looked_up ≤ seen)

  -- No other key has the limiter, and the store keeps it for ten minutes.
  pub record InFlight (h : SharedLimiters Limit Limiter) (c : Call) : Type 0 where
    pub below : c.limiter < h.fresh
    pub owner :
        (k : Text) (e : ClientEntry ℕ)
        → lookup text_discrete k h.clients ≡ some e
        → e.limiter ≡ c.limiter
        → k ≡ c.key
    pub kept : h.clock ≤ c.looked_up + 10 * minute → Current h c

  pub record Apart (h : SharedLimiters Limit Limiter) : Type 0 where
    pub unique : UniqueKeys text_discrete h.clients
    pub known :
        (k : Text) (e : ClientEntry ℕ)
        → lookup text_discrete k h.clients ≡ some e
        → (e.limiter < h.fresh) × (e.last_seen ≤ h.clock)
    pub apart :
        (j k : Text) (d e : ClientEntry ℕ)
        → lookup text_discrete j h.clients ≡ some d
        → lookup text_discrete k h.clients ≡ some e
        → d.limiter ≡ e.limiter
        → j ≡ k
    pub in_flight : All (InFlight h) h.calls

  module _ (lib : RateLib Limit Limiter) where
    pub new_limiters-Apart :
        (limit : Limit) (burst now : ℕ) (idle : Limiter)
        → Apart (new_limiters lib limit burst now idle)
    unfolding new_limiters lookup
    new_limiters-Apart limit burst now idle = record {
      unique = tt;
      known = λ k e p. absurd (cc);
      apart = λ j k d e p q same. absurd (cc);
      in_flight = tt;
    }

    pub passes-Apart :
        (later : ℕ) (h : SharedLimiters Limit Limiter)
        → h.clock ≤ later
        → Apart h
        → Apart (record h { clock = later })
    passes-Apart later h le v = record {
      unique = v.unique;
      known = λ k e p. let (a, b) = v.known k e p in (a, omega (arith, b, le));
      apart = v.apart;
      in_flight =
          All-map (InFlight h) (InFlight (record h { clock = later })) h.calls
            (λ c o. record {
              below = o.below;
              owner = o.owner;
              kept = λ recent. o.kept (omega (arith, recent, le));
            })
            v.in_flight;
    }

    lookup-cleanup_at :
        (at : ℕ) (h : SharedLimiters Limit Limiter) (k : Text) (e : ClientEntry ℕ)
        → UniqueKeys text_discrete h.clients
        → lookup text_discrete k (expire at h.clients) ≡ some e
        → lookup text_discrete k h.clients ≡ some e
    lookup-cleanup_at at h k e u p = ground (arith, lookup-expire at k h.clients u)

    kept-cleanup_at :
        (at : ℕ) (h : SharedLimiters Limit Limiter) (c : Call)
        → at ≤ h.clock
        → UniqueKeys text_discrete h.clients
        → InFlight h c
        → h.clock ≤ c.looked_up + 10 * minute
        → Current (cleanup_at lib at h) c
    unfolding cleanup_at
    kept-cleanup_at at h c le u o recent =
        let (seen, found, later) = o.kept recent in
        (seen, ground (arith, lookup-expire at c.key h.clients u), later)

    pub cleanup_at-Apart :
        (at : ℕ) (h : SharedLimiters Limit Limiter)
        → at ≤ h.clock
        → Apart h
        → Apart (cleanup_at lib at h)
    unfolding cleanup_at
    cleanup_at-Apart at h le v =
        let back : (k : Text) (e : ClientEntry ℕ)
            → lookup text_discrete k (expire at h.clients) ≡ some e
            → lookup text_discrete k h.clients ≡ some e =
          λ k e p. lookup-cleanup_at at h k e v.unique p in
        record {
          unique = expire-UniqueKeys at h.clients v.unique;
          known = λ k e p. v.known k e (back k e p);
          apart = λ j k d e p q same. v.apart j k d e (back j d p) (back k e q) same;
          in_flight =
              All-map (InFlight h) (InFlight (cleanup_at lib at h)) h.calls
                (λ c o. record {
                  below = o.below;
                  owner = λ k e p same. o.owner k e (back k e p) same;
                  kept = kept-cleanup_at at h c le v.unique o;
                })
                v.in_flight;
        }
