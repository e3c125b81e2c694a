-- ===== src/RateLimit/Interceptor.antt =====
-- Which requests the interceptor passes on, and under which key it counts them.
use rea_time_chat_g_rpc.Base.{
  ℕ, ◌≡◌, ◌≢◌, ap, length, Bool, not, ◌&&◌, if◌then◌else◌, none, List, ◌∷◌, arith, Text,
  text_discrete, lookup, err,
}
use rea_time_chat_g_rpc.Normalize.{CaseTable, email}
use rea_time_chat_g_rpc.Normalize.Laws.{email-cons_space, is_space-space}
use rea_time_chat_g_rpc.RateLimit.{
  RateLib, LimiterStore, Handler, Request, email_key, limit_key, flag, exceeded, allow,
  rate_limit_unary_interceptor,
}
use rea_time_chat_g_rpc.RateLimit.Isolation.{key_allow, allow_lem, settings-allow}

module _ {Limit Limiter R W : Type 0} (lib : RateLib Limit Limiter) where
  -- A request for a limited method is decided by the limiter of its own key alone. If that limiter
  -- refuses, the answer is ResourceExhausted and the handler does not run; any other request is answered
  -- by the handler. Before that the limited request is counted, and no other.
  pub rate_limit_decision :
      (limited_methods : List (Text × Bool)) (now later : ℕ) (req : Request)
      (handler : Handler Limit Limiter R W) (s : LimiterStore Limit Limiter) (w : W)
      → let limited = flag (lookup text_discrete req.full_method limited_methods) in
        let key = limit_key req in
        let decision =
          (key_allow lib now later s.limit s.burst (lookup text_discrete key s.clients)).0 in
        let counted = if limited then (allow lib now later key s).1 else s in
        rate_limit_unary_interceptor lib limited_methods now later req handler s w
        ≡ (if limited && not decision then (err exceeded, counted, w) else handler counted w)
  unfolding rate_limit_unary_interceptor
  rate_limit_decision limited_methods now later req handler s w =
      let (same, _) = allow_lem lib now later (limit_key req) (limit_key req) s in ground arith

email_key-ne : (c : ℕ) (e : Text) (a b : Text) → email_key (c ∷ e) a ≢ email_key (32 ∷ c ∷ e) b
email_key-ne c e a b h = omega (arith, ap length h)

module _ {Limit Limiter : Type 0} (lib : RateLib Limit Limiter) where
  -- A leading space names the same account but another limiter: right after a call of `Allow`
  -- under one spelling of an address, a call under the address with a space before it is decided
  -- by a fresh limiter, if the store has no entry for that spelling.
  pub spaced_address_bypass :
      (t : CaseTable) (c : ℕ) (e a b : Text) (now later now' later' : ℕ)
      (s : LimiterStore Limit Limiter)
      → lookup text_discrete (email_key (32 ∷ c ∷ e) b) s.clients ≡ none
      → (email t (32 ∷ c ∷ e) ≡ email t (c ∷ e))
        × ((allow lib now' later'
              (email_key (32 ∷ c ∷ e) b)
              (allow lib now later (email_key (c ∷ e) a) s).1).0
            ≡ (lib.allow later' (lib.new_limiter s.limit s.burst)).0)
  spaced_address_bypass t c e a b now later now' later' s unseen = (
    email-cons_space t 32 (c ∷ e) is_space-space,
    ground (
      arith,
      allow_lem lib now' later' (email_key (32 ∷ c ∷ e) b) (email_key (32 ∷ c ∷ e) b)
          (allow lib now later (email_key (c ∷ e) a) s).1,
      allow_lem lib now later (email_key (c ∷ e) a) (email_key (32 ∷ c ∷ e) b) s,
      settings-allow lib now later (email_key (c ∷ e) a) s,
      email_key-ne c e a b,
    ),
  )
