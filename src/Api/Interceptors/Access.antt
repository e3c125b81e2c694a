-- ===== src/Api/Interceptors/Access.antt =====
-- A method that is not in the short list of open ones runs only for a verified token.
use rea_time_chat_g_rpc.Base.{
  ℕ, ◌<◌, ◌≡◌, ◌≢◌, refl, ap, ◌∙◌, ◌⊎◌, inl, inr, Bool, false, Option, none, some, List, [], ◌∷◌,
  ◌++◌, arith, Text, codes, text_discrete, lookup, Result, ok, err, Result-cases,
}
use rea_time_chat_g_rpc.Errors.{Status, unauthenticated}
use rea_time_chat_g_rpc.Normalize.{CaseTable, IsCaseTable, email, trim_space}
use rea_time_chat_g_rpc.Normalize.Laws.{trim_space-cons, is_space-space}
use rea_time_chat_g_rpc.Auth.{Claims, TokenLib, JwtManager, generate_token, verify_token}
use rea_time_chat_g_rpc.Auth.Tokens.{IsTokenLib, verify_token-generate_token}
use rea_time_chat_g_rpc.RateLimit.{flag}
use rea_time_chat_g_rpc.Api.Interceptors.{
  Call, allowed_methods, get_values, strip, trim_prefix, non_empty, header_token, bearer_token,
  authenticate, auth_unary_interceptor, auth_stream_interceptor,
}

non_empty-refusal : (s : Text) (e : Status) → non_empty s ≡ err e → e.code ≡ unauthenticated
unfolding non_empty
non_empty-refusal [] e h = ground arith
non_empty-refusal (c ∷ s) e h = absurd (ground arith)

header_token-refusal :
    (hs : List Text) (e : Status) → header_token hs ≡ err e → e.code ≡ unauthenticated
unfolding header_token
header_token-refusal [] e h = ground arith
header_token-refusal (x ∷ hs) e h = non_empty-refusal _ e h

-- Every refusal of a bearer token has the code Unauthenticated.
bearer_token-refusal :
    (md : Option (List (Text × List Text))) (e : Status)
    → bearer_token md ≡ err e
    → e.code ≡ unauthenticated
unfolding bearer_token
bearer_token-refusal none e h = ground arith
bearer_token-refusal (some md) e h =
    header_token-refusal (get_values (codes "authorization") md) e h

module _ (t : CaseTable) (lib : TokenLib) (j : JwtManager) where
  -- The call carries a token that the manager verifies, with these claims.
  abbrev pub Carries : ℕ → Call → Claims → Type 0
  Carries now call c =
      (token : Text) × (bearer_token call.metadata ≡ ok token)
      × (verify_token t lib j now token ≡ ok c)

  authenticate-cases :
      (now : ℕ) (call : Call)
      → ((c : Claims) × (authenticate t lib j now call ≡ ok c) × Carries now call c)
        ⊎ ((e : Status) × (authenticate t lib j now call ≡ err e) × (e.code ≡ unauthenticated))
  unfolding authenticate
  authenticate-cases now call = elim (Result-cases (bearer_token call.metadata)) [
    | inl (token, b) ↦ elim (Result-cases (verify_token t lib j now token)) [
      | inl (c, v) ↦ inl (c, ground arith, (token, b, v))
      | inr (e, v) ↦ inr (
        record { code = unauthenticated; format = codes "unauthenticated: %v"; cause = some e },
        ground arith,
        refl,
      )
    ]
    | inr (e, b) ↦ inr (e, ground arith, bearer_token-refusal call.metadata e b)
  ]

  -- A method outside the open list reaches its handler only with the claims of a verified token in the
  -- context; otherwise the answer is Unauthenticated and the world is as it was.
  pub auth_unary_access :
      {R W : Type 0} (now : ℕ) (call : Call) (handler : Call → W → Result Status R × W) (w : W)
      → flag (lookup text_discrete call.full_method allowed_methods) ≡ false
      → ((c : Claims) × Carries now call c
          × (auth_unary_interceptor t lib j now call handler w
              ≡ handler (record call { claims = some c }) w))
        ⊎ ((e : Status) × (e.code ≡ unauthenticated)
            × (auth_unary_interceptor t lib j now call handler w ≡ (err e, w)))
  unfolding auth_unary_interceptor
  auth_unary_access now call handler w closed = elim (authenticate-cases now call) [
    | inl (c, e, carried) ↦ inl (c, carried, ground arith)
    | inr (s, e, code) ↦ inr (s, code, ground arith)
  ]

  -- The same of a stream.
  pub auth_stream_access :
      {E W : Type 0} (refuse : Status → E) (now : ℕ) (call : Call) (handler : Call → W → E × W)
      (w : W)
      → flag (lookup text_discrete call.full_method allowed_methods) ≡ false
      → ((c : Claims) × Carries now call c
          × (auth_stream_interceptor t lib j refuse now call handler w
              ≡ handler (record call { claims = some c }) w))
        ⊎ ((e : Status) × (e.code ≡ unauthenticated)
            × (auth_stream_interceptor t lib j refuse now call handler w ≡ (refuse e, w)))
  unfolding auth_stream_interceptor
  auth_stream_access refuse now call handler w closed = elim (authenticate-cases now call) [
    | inl (c, e, carried) ↦ inl (c, carried, ground arith)
    | inr (s, e, code) ↦ inr (s, code, ground arith)
  ]

module _ (t : CaseTable) (lib : TokenLib) (j : JwtManager) where
  -- A call that carries a verified token reaches its handler with the claims.
  pub Carries-auth_stream :
      {E W : Type 0} (refuse : Status → E) (now : ℕ) (call : Call) (c : Claims)
      (handler : Call → W → E × W) (w : W)
      → flag (lookup text_discrete call.full_method allowed_methods) ≡ false
      → Carries t lib j now call c
      → auth_stream_interceptor t lib j refuse now call handler w
        ≡ handler (record call { claims = some c }) w
  unfolding auth_stream_interceptor authenticate
  Carries-auth_stream refuse now call c handler w closed (token, borne, verified) = ground arith

header_token-Bearer :
    (s : Text) (hs : List Text)
    → trim_space s ≡ s
    → s ≢ []
    → header_token ((codes "Bearer " ++ s) ∷ hs) ≡ ok s
unfolding header_token trim_prefix strip non_empty
header_token-Bearer [] hs clean full = absurd (full refl)
header_token-Bearer (c ∷ s) hs clean full = rw (trim_space-cons 32 (c ∷ s) is_space-space, clean)

pub bearer_token-issued :
    (md : List (Text × List Text)) (s : Text)
    → get_values (codes "authorization") md ≡ (codes "Bearer " ++ s) ∷ []
    → trim_space s ≡ s
    → s ≢ []
    → bearer_token (some md) ≡ ok s
unfolding bearer_token
bearer_token-issued md s header clean full =
    ap header_token header ∙ header_token-Bearer s [] clean full

module _ (t : CaseTable) (cases : IsCaseTable t) (lib : TokenLib) (verifies : Text → Text → Bool)
    (laws : IsTokenLib lib verifies) where
  -- With the documented behaviour of the JWT library: a call of a method outside the open list
  -- with an issued token behind "Bearer " in its first header, where the token is not empty and
  -- has no space at its ends, reaches its handler until the token expires, and the context then
  -- holds the user's id and the normalized address.
  pub issued_token_access :
      (j : JwtManager) (user_id : ℕ) (mail : Text) (issued later now expires_at : ℕ) (s : Text)
      (call : Call) (md : List (Text × List Text)) {R W : Type 0}
      (handler : Call → W → Result Status R × W) (w : W)
      → flag (lookup text_discrete call.full_method allowed_methods) ≡ false
      → generate_token t lib j user_id mail issued later ≡ ok (s, expires_at)
      → now < lib.numeric_date expires_at
      → (trim_space s ≡ s) × (s ≢ [])
      → call.metadata ≡ some md
      → get_values (codes "authorization") md ≡ (codes "Bearer " ++ s) ∷ []
      → (c : Claims) × (c.user_id ≡ lib.hex user_id)
        × (c.email ≡ email t mail)
        × (auth_unary_interceptor t lib j now call handler w
            ≡ handler (record call { claims = some c }) w)
  unfolding auth_unary_interceptor authenticate
  issued_token_access j user_id mail issued later now expires_at s call md handler w closed g fresh
        clean sent header =
      let (_, verified) =
        verify_token-generate_token t cases lib verifies laws j j user_id mail issued later now
          expires_at s g refl fresh in
      let borne = ap bearer_token sent ∙ bearer_token-issued md s header clean.0 clean.1 in
      let c : Claims = record {
        user_id = lib.hex user_id;
        email = email t mail;
        expires_at = some (lib.numeric_date expires_at);
        issued_at = some (lib.numeric_date later);
      } in
      (c, refl, refl, ground arith)
