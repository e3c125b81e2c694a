-- ===== src/RateLimit/Shared/Draws.antt =====
-- What a call of `Allow` draws from, and whom that concerns.
use rea_time_chat_g_rpc.Base.{
  ℕ, ◌+◌, ◌*◌, ◌≤◌, ◌≡◌, ◌≢◌, refl, none, some, ◌∷◌, arith, Text, text_discrete, lookup, All-map,
  All-without, All-get, without, get_elem?,
}
use rea_time_chat_g_rpc.RateLimit.{RateLib, ClientEntry, minute}
use rea_time_chat_g_rpc.RateLimit.Shared.{
  draw, Call, SharedLimiters, new_limiters, draw_at, Step, passes, looks_up, draws, cleans, Reach,
  here, next,
}
use rea_time_chat_g_rpc.RateLimit.Shared.Calls.{
  InFlight, Apart, new_limiters-Apart, passes-Apart, cleanup_at-Apart,
}
use rea_time_chat_g_rpc.RateLimit.Shared.Lookups.{get_limiter_at-Apart}

module _ {Limit Limiter : Type 0} (lib : RateLib Limit Limiter) where
  draw-Apart :
      (n : ℕ) (c : Call) (h : SharedLimiters Limit Limiter) → Apart h → Apart (draw lib n c h)
  unfolding draw
  draw-Apart n c h v = record {
    unique = v.unique;
    known = v.known;
    apart = v.apart;
    in_flight =
        All-map (InFlight h) (InFlight (draw lib n c h)) (without n h.calls)
          (λ d o. record { below = o.below; owner = o.owner; kept = o.kept })
          (All-without (InFlight h) n h.calls v.in_flight);
  }

  draw_at-Apart : (n : ℕ) (h : SharedLimiters Limit Limiter) → Apart h → Apart (draw_at lib n h)
  draw_at-Apart n h v =
      elim (get_elem? h.calls n) as (λ o. Apart (elim o [ none ↦ h | some c ↦ draw lib n c h ])) [
        | none ↦ v
        | some c ↦ draw-Apart n c h v
      ]

  Step-Apart : {h k : SharedLimiters Limit Limiter} → Step lib h k → Apart h → Apart k
  Step-Apart {h} (passes later le) v = passes-Apart lib later h le v
  Step-Apart {h} (looks_up key) v = get_limiter_at-Apart lib key h v
  Step-Apart {h} (draws n) v = draw_at-Apart n h v
  Step-Apart {h} (cleans at le) v = cleanup_at-Apart lib at h le v

  Reach-Apart : {h k : SharedLimiters Limit Limiter} → Reach lib h k → Apart h → Apart k
  Reach-Apart here v = v
  Reach-Apart (next r st) v = Step-Apart st (Reach-Apart r v)

  draw-heap :
      (n : ℕ) (c : Call) (h : SharedLimiters Limit Limiter) (a : ℕ)
      → a ≢ c.limiter
      → (draw lib n c h).heap a ≡ h.heap a
  unfolding draw
  draw-heap n c h a other = ground arith

  draw-current :
      (n : ℕ) (c : Call) (h : SharedLimiters Limit Limiter) (a : ℕ)
      → a ≡ c.limiter
      → let (yes_no, l) = lib.allow h.clock (h.heap a) in
        ((draw lib n c h).answers ≡ (c.key, yes_no) ∷ h.answers) × ((draw lib n c h).heap a ≡ l)
  unfolding draw
  draw-current n c h a same = ground arith

  -- In every state that calls of `Allow`, the clean-up and the clock reach from a new store, take a call
  -- that has its limiter. Its draw leaves the limiters that the store has for other keys as they are. Up to
  -- ten minutes after its look-up, however often the clean-up has run, the store has an entry for its key,
  -- and the call answers by, and draws from, the limiter of that entry.
  pub calls_in_flight :
      (limit : Limit) (burst now : ℕ) (idle : Limiter) (h : SharedLimiters Limit Limiter) (n : ℕ)
      (c : Call)
      → Reach lib (new_limiters lib limit burst now idle) h
      → get_elem? h.calls n ≡ some c
      → ((k : Text) (e : ClientEntry ℕ)
          → lookup text_discrete k h.clients ≡ some e
          → k ≢ c.key
          → (draw_at lib n h).heap e.limiter ≡ h.heap e.limiter)
        × (h.clock ≤ c.looked_up + 10 * minute
            → (e : ClientEntry ℕ) × (lookup text_discrete c.key h.clients ≡ some e)
              × let (yes_no, l) = lib.allow h.clock (h.heap e.limiter) in
                ((draw_at lib n h).answers ≡ (c.key, yes_no) ∷ h.answers)
                × ((draw_at lib n h).heap e.limiter ≡ l))
  calls_in_flight limit burst now idle h n c reach found =
      let v = Reach-Apart reach (new_limiters-Apart lib limit burst now idle) in
      let o = All-get (InFlight h) n c h.calls found v.in_flight in
      (
        λ k e p other. ground (arith, draw-heap n c h e.limiter, o.owner k e),
        λ recent.
            let (seen, held, _) = o.kept recent in
            (
              record { limiter = c.limiter; last_seen = seen },
              held,
              ground (arith, draw-current n c h c.limiter refl),
            ),
      )
