-- ===== src/RateLimit/Isolation.antt =====
-- `Allow` and the clean-up, seen from one key.
use rea_time_chat_g_rpc.Base.{
  ℕ, ◌≡◌, refl, inl, inr, Bool, Option, none, some, List, [], ◌∷◌, arith, ite, Text, text_discrete,
  lookup, lookup-insert, UniqueKeys, insert-UniqueKeys, ltb, if◌then◌else◌, Option-cases,
}
use rea_time_chat_g_rpc.RateLimit.{
  RateLib, ClientEntry, LimiterStore, cutoff, expire, get_limiter, write_limiter, allow,
}

module _ {Limit Limiter : Type 0} (lib : RateLib Limit Limiter) where
  -- One key on its own: its entry, if it has been seen and not cleaned up.
  abbrev pub entry_or_new : ℕ → Limit → ℕ → Option (ClientEntry Limiter) → ClientEntry Limiter
  entry_or_new now limit burst none = record {
    limiter = lib.new_limiter limit burst;
    last_seen = now;
  }
  entry_or_new now limit burst (some e) = record e { last_seen = now }

  abbrev pub key_allow :
      ℕ → ℕ → Limit → ℕ → Option (ClientEntry Limiter) → Bool × Option (ClientEntry Limiter)
  key_allow now later limit burst o =
      let e = entry_or_new now limit burst o in
      let (yes_no, l) = lib.allow later e.limiter in
      (yes_no, some (record { limiter = l; last_seen = now }))

  abbrev pub key_cleanup : ℕ → Option (ClientEntry Limiter) → Option (ClientEntry Limiter)
  key_cleanup now none = none
  key_cleanup now (some e) = if ltb e.last_seen (cutoff now) then none else some e

  lookup-get_limiter :
      (now : ℕ) (key other : Text) (s : LimiterStore Limit Limiter)
      → lookup text_discrete other (get_limiter lib now key s).1.clients
        ≡ ite
            (text_discrete key other)
            (some (entry_or_new now s.limit s.burst (lookup text_discrete key s.clients)))
            (lookup text_discrete other s.clients)
  unfolding get_limiter
  lookup-get_limiter now key other s = elim (Option-cases (lookup text_discrete key s.clients)) [
    | inl e ↦
        let fresh : ClientEntry Limiter = record {
          limiter = lib.new_limiter s.limit s.burst;
          last_seen = now;
        } in
        ground (arith, lookup-insert text_discrete key other fresh s.clients)
    | inr (c, e) ↦
        let seen : ClientEntry Limiter = record c { last_seen = now } in
        ground (arith, lookup-insert text_discrete key other seen s.clients)
  ]

  get_limiter-limiter :
      (now : ℕ) (key : Text) (s : LimiterStore Limit Limiter)
      → (get_limiter lib now key s).0
        ≡ (entry_or_new now s.limit s.burst (lookup text_discrete key s.clients)).limiter
  unfolding get_limiter
  get_limiter-limiter now key s = ground arith

  lookup-write_limiter :
      (key other : Text) (l : Limiter) (s : LimiterStore Limit Limiter) {e : ClientEntry Limiter}
      → lookup text_discrete key s.clients ≡ some e
      → lookup text_discrete other (write_limiter key l s).clients
        ≡ ite
            (text_discrete key other)
            (some (record e { limiter = l }))
            (lookup text_discrete other s.clients)
  unfolding write_limiter
  lookup-write_limiter key other l s {e} h =
      let drawn : ClientEntry Limiter = record e { limiter = l } in
      ground (arith, lookup-insert text_discrete key other drawn s.clients)

  -- `Allow` decides by the key's own limiter and changes the key's own entry only.
  pub allow_lem :
      (now later : ℕ) (key other : Text) (s : LimiterStore Limit Limiter)
      → let (decision, next) =
          key_allow now later s.limit s.burst (lookup text_discrete key s.clients) in
        ((allow lib now later key s).0 ≡ decision)
        × (lookup text_discrete other (allow lib now later key s).1.clients
            ≡ ite (text_discrete key other) next (lookup text_discrete other s.clients))
  unfolding allow
  allow_lem now later key other s =
      let (l, s') = get_limiter lib now key s in
      let (_, l') = lib.allow later l in
      ground (
        arith,
        get_limiter-limiter now key s,
        lookup-get_limiter now key key s,
        lookup-get_limiter now key other s,
        lookup-write_limiter key other l' s'
            {e = entry_or_new now s.limit s.burst (lookup text_discrete key s.clients)},
      )

  get_limiter-UniqueKeys :
      (now : ℕ) (key : Text) (s : LimiterStore Limit Limiter)
      → UniqueKeys text_discrete s.clients
      → UniqueKeys text_discrete (get_limiter lib now key s).1.clients
  unfolding get_limiter
  get_limiter-UniqueKeys now key s u =
      let fresh : ClientEntry Limiter = record {
        limiter = lib.new_limiter s.limit s.burst;
        last_seen = now;
      } in
      elim (Option-cases (lookup text_discrete key s.clients)) [
        | inl e ↦ ground (arith, insert-UniqueKeys text_discrete key fresh s.clients u)
        | inr (c, e) ↦
            let seen : ClientEntry Limiter = record c { last_seen = now } in
            ground (arith, insert-UniqueKeys text_discrete key seen s.clients u)
      ]

  write_limiter-UniqueKeys :
      (key : Text) (l : Limiter) (s : LimiterStore Limit Limiter)
      → UniqueKeys text_discrete s.clients
      → UniqueKeys text_discrete (write_limiter key l s).clients
  unfolding write_limiter
  write_limiter-UniqueKeys key l s u = elim (Option-cases (lookup text_discrete key s.clients)) [
    | inl e ↦ ground arith
    | inr (c, e) ↦
        let drawn : ClientEntry Limiter = record c { limiter = l } in
        ground (arith, insert-UniqueKeys text_discrete key drawn s.clients u)
  ]

  pub allow-UniqueKeys :
      (now later : ℕ) (key : Text) (s : LimiterStore Limit Limiter)
      → UniqueKeys text_discrete s.clients
      → UniqueKeys text_discrete (allow lib now later key s).1.clients
  unfolding allow
  allow-UniqueKeys now later key s u =
      let (l, s') = get_limiter lib now key s in
      write_limiter-UniqueKeys key (lib.allow later l).1 s' (get_limiter-UniqueKeys now key s u)

  -- The limit and the burst are those that the store was made with.
  pub settings-allow :
      (now later : ℕ) (key : Text) (s : LimiterStore Limit Limiter)
      → ((allow lib now later key s).1.limit ≡ s.limit)
        × ((allow lib now later key s).1.burst ≡ s.burst)
  unfolding allow get_limiter write_limiter
  settings-allow now later key s = ground arith

pub lookup-expire :
    {Limiter : Type 0} (now : ℕ) (k : Text) (m : List (Text × ClientEntry Limiter))
    → UniqueKeys text_discrete m
    → lookup text_discrete k (expire now m) ≡ elim (lookup text_discrete k m) [
      | none ↦ none
      | some e ↦ if ltb e.last_seen (cutoff now) then none else some e
    ]
unfolding expire lookup
lookup-expire now k [] u = refl
lookup-expire now k ((j, e) ∷ m) u = ground (arith, lookup-expire now k m u.1)

pub expire-UniqueKeys :
    {Limiter : Type 0} (now : ℕ) (m : List (Text × ClientEntry Limiter))
    → UniqueKeys text_discrete m
    → UniqueKeys text_discrete (expire now m)
unfolding expire lookup
expire-UniqueKeys now [] u = tt
expire-UniqueKeys now ((j, e) ∷ m) u =
    ground (arith, expire-UniqueKeys now m u.1, lookup-expire now j m u.1)
