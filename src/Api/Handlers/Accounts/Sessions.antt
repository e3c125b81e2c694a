-- ===== src/Api/Handlers/Accounts/Sessions.antt =====
-- What a registration and a login give to the client.
use rea_time_chat_g_rpc.Base.{
  ℕ, ◌<◌, ◌≡◌, refl, ap, sym, subst, ◌∙◌, inl, inr, Bool, none, some, List, [], ◌∷◌, ◌++◌, arith,
  Text, codes, ok, err, Result-cases, Option-cases, count, Has,
}
use rea_time_chat_g_rpc.Errors.{internal, Status}
use rea_time_chat_g_rpc.Normalize.{CaseTable, IsCaseTable, email}
use rea_time_chat_g_rpc.Normalize.Laws.{email_idem}
use rea_time_chat_g_rpc.Auth.{
  Claims, TokenLib, JwtManager, Bcrypt, generate_token, verify_token, hash_password, check_password,
}
use rea_time_chat_g_rpc.Auth.Tokens.{IsTokenLib, verify_token-generate_token}
use rea_time_chat_g_rpc.Data.Models.{User}
use rea_time_chat_g_rpc.Data.Users.{UsersColl, by_email, meets, create_user, get_user_by_email}
use rea_time_chat_g_rpc.Data.Users.Accounts.{
  IsUsersColl, document, create_user_ok, get_user_by_email-create_user, create_user_taken,
  get_user_by_email_ok,
}
use rea_time_chat_g_rpc.Api.Stores.{users_store}
use rea_time_chat_g_rpc.Api.Requests.{
  RegisterRequest, RegisterResponse, LoginRequest, LoginResponse,
}
use rea_time_chat_g_rpc.Api.Handlers.Accounts.{
  Clock, fail_with, register_response, register, login_response, login,
}

-- What bcrypt documents: a hash fits the password that it was made from.
abbrev pub IsBcrypt : Bcrypt → Type 0
IsBcrypt b =
    (p h : Text) → b.generate_from_password p ≡ ok h → b.compare_hash_and_password h p ≡ none

module _ (t : CaseTable) (cases : IsCaseTable t) (lib : TokenLib) (verifies : Text → Text → Bool)
    (tokens : IsTokenLib lib verifies) (bcrypt : Bcrypt) {W : Type 0} (users : UsersColl W)
    (docs : W → List User) (laws : IsUsersColl users docs) (j : JwtManager) where
  -- The account behind a successful registration, and the parts that its response is made of.
  abbrev pub Registered : Clock → RegisterRequest → W → RegisterResponse → User → Type 0
  Registered clock req w r u =
      (hashed : Text) × (bcrypt.generate_from_password req.password ≡ ok hashed)
      × ((create_user t users req.email hashed clock.created clock.updated w).0 ≡ ok u)
      × ((register t lib bcrypt (users_store t users) j clock req w).1
          ≡ (create_user t users req.email hashed clock.created clock.updated w).1)
      × (generate_token t lib j u.id u.email clock.now clock.issued ≡ ok (r.token, r.expires_at))
      × (r.user_id ≡ lib.hex u.id)

  register-Registered :
      (clock : Clock) (req : RegisterRequest) (w : W) (r : RegisterResponse)
      → (register t lib bcrypt (users_store t users) j clock req w).0 ≡ ok r
      → (u : User) × Registered clock req w r u
  unfolding register register_response hash_password
  register-Registered clock req w r e =
      elim (Result-cases (bcrypt.generate_from_password req.password)) [
        | inr (_, f) ↦ absurd (ground arith)
        | inl (hashed, f) ↦
            elim (Result-cases
              (create_user t users req.email hashed clock.created clock.updated w).0) [
                | inr (_, g) ↦ absurd (ground arith)
                | inl (u, g) ↦
                    elim (Result-cases
                      (generate_token t lib j u.id u.email clock.now clock.issued)) [
                        | inr (_, k) ↦ absurd (ground arith)
                        | inl (issued, k) ↦
                            (u, (hashed, f, g, ground arith, ground arith, ground arith))
                      ]
              ]
      ]

  -- At the time `at` the token is verified as this user's.
  abbrev pub Opens : ℕ → Text → Text → Text → Type 0
  Opens at token user_id mail =
      (c : Claims) × (verify_token t lib j at token ≡ ok c)
      × (c.user_id ≡ user_id)
      × (c.email ≡ mail)

  issued-Opens :
      (clock : Clock) (u : User) (mail token : Text) (expires_at at : ℕ)
      → u.email ≡ email t mail
      → generate_token t lib j u.id u.email clock.now clock.issued ≡ ok (token, expires_at)
      → at < lib.numeric_date expires_at
      → Opens at token (lib.hex u.id) (email t mail)
  issued-Opens clock u mail token expires_at at stored g fresh =
      let (_, verified) =
        verify_token-generate_token t cases lib verifies tokens j j u.id u.email clock.now
          clock.issued at expires_at token g refl fresh in
      (
        record {
          user_id = lib.hex u.id;
          email = email t u.email;
          expires_at = some (lib.numeric_date expires_at);
          issued_at = some (lib.numeric_date clock.issued);
        },
        verified,
        refl,
        ap (email t) stored ∙ email_idem t cases mail,
      )

  -- With the documented behaviour of the database and the JWT library: a successful registration
  -- stores one account under the normal form of an address that was free, and at any time before
  -- it expires its token is verified as this account's.
  pub register_ok :
      (clock : Clock) (req : RegisterRequest) (w : W) (r : RegisterResponse) (at : ℕ)
      → (register t lib bcrypt (users_store t users) j clock req w).0 ≡ ok r
      → at < lib.numeric_date r.expires_at
      → (u : User) × (docs (register t lib bcrypt (users_store t users) j clock req w).1
          ≡ docs w ++ document u ∷ [])
        × (u.email ≡ email t req.email)
        × (count (meets (by_email (email t req.email))) (docs w) ≡ 0)
        × (r.user_id ≡ lib.hex u.id)
        × Opens at r.token r.user_id (email t req.email)
  register_ok clock req w r at e fresh =
      let (u, (hashed, _, made, same, issued, id)) = register-Registered clock req w r e in
      let (stored, _, added, free) =
        create_user_ok t users docs laws req.email hashed clock.created clock.updated w u made in
      (
        u,
        ap docs same ∙ added,
        stored,
        free,
        id,
        rw id (issued-Opens clock u req.email r.token r.expires_at at stored issued fresh),
      )

  -- With the documented behaviour of the database and bcrypt: if a login right after a successful
  -- registration, under any spelling of the address and with the same password, finds some
  -- account, it passes the check of the password and goes on to issue a token for the user id of
  -- the registration.
  pub login-register :
      IsBcrypt bcrypt
      → (clock clock' : Clock) (req : RegisterRequest) (w : W) (r : RegisterResponse) (other : Text)
        (v : User)
      → (register t lib bcrypt (users_store t users) j clock req w).0 ≡ ok r
      → email t other ≡ email t req.email
      → let w' = (register t lib bcrypt (users_store t users) j clock req w).1 in
        get_user_by_email t users other w' ≡ ok v
        → (login t lib bcrypt
              (users_store t users)
              j
              clock'
              (record { email = other; password = req.password })
              w'
            ≡ login_response t lib bcrypt (users_store t users) j clock' v)
          × (lib.hex v.id ≡ r.user_id)
  unfolding login check_password
  login-register fits clock clock' req w r other v e same found =
      let (u, (hashed, hash, made, world, issued, id)) = register-Registered clock req w r e in
      let (_, kept, _, _) =
        create_user_ok t users docs laws req.email hashed clock.created clock.updated w u made in
      let is_u : v ≡ document u =
        get_user_by_email-create_user t users docs laws req.email hashed other clock.created
          clock.updated w u v made same (rw world at found) in
      let opens : bcrypt.compare_hash_and_password v.password req.password ≡ none =
        ap (λ x. bcrypt.compare_hash_and_password (x.password) req.password) is_u
        ∙ ap (λ h. bcrypt.compare_hash_and_password h req.password) kept
        ∙ fits req.password hashed hash in
      (ground arith, ap (λ x. lib.hex (x.id)) is_u ∙ sym id)

  -- With the documented behaviour of the database and the JWT library: a successful login names a
  -- stored account with the normalized address, whose hash bcrypt accepts for the password, and at
  -- any time before it expires its token is verified as this account's.
  pub login_ok :
      (clock : Clock) (req : LoginRequest) (w : W) (r : LoginResponse) (at : ℕ)
      → login t lib bcrypt (users_store t users) j clock req w ≡ ok r
      → at < lib.numeric_date r.expires_at
      → (u : User) × Has u (docs w)
        × (u.email ≡ email t req.email)
        × (bcrypt.compare_hash_and_password u.password req.password ≡ none)
        × (r.user_id ≡ lib.hex u.id)
        × Opens at r.token r.user_id (email t req.email)
  unfolding login login_response check_password
  login_ok clock req w r at e fresh = elim (Result-cases (get_user_by_email t users req.email w)) [
    | inr (_, f) ↦ absurd (ground arith)
    | inl (u, f) ↦ elim (Option-cases (bcrypt.compare_hash_and_password u.password req.password)) [
      | inr (_, g) ↦ absurd (ground arith)
      | inl g ↦ elim (Result-cases (generate_token t lib j u.id u.email clock.now clock.issued)) [
        | inr (_, k) ↦ absurd (ground arith)
        | inl ((token, expires_at), k) ↦
            let (has, stored) = get_user_by_email_ok t users docs laws req.email w u f in
            let is_r : record { token = token; user_id = lib.hex u.id; expires_at = expires_at }
                ≡ r =
              ground arith in
            let until : at < lib.numeric_date expires_at =
              subst (λ (x : LoginResponse). at < lib.numeric_date (x.expires_at)) (sym is_r)
                fresh in
            let opens = issued-Opens clock u req.email token expires_at at stored k until in
            (
              u,
              has,
              stored,
              g,
              ground arith,
              subst (λ (x : LoginResponse). Opens at x.token x.user_id (email t req.email)) is_r
                  opens,
            )
      ]
    ]
  ]

  -- With the documented behaviour of the database: a registration with any spelling of a stored
  -- address fails with the code Internal and stores nothing.
  register_taken :
      (clock : Clock) (req : RegisterRequest) (w : W) (v : User)
      → Has v (docs w)
      → v.email ≡ email t req.email
      → (s : Status) × ((register t lib bcrypt (users_store t users) j clock req w).0 ≡ err s)
        × (s.code ≡ internal)
        × (docs (register t lib bcrypt (users_store t users) j clock req w).1 ≡ docs w)
  unfolding register hash_password
  register_taken clock req w v has same =
      elim (Result-cases (bcrypt.generate_from_password req.password)) [
        | inr (e, f) ↦ (
          fail_with internal (codes "failed to hash password: %v") (some e),
          ground arith,
          refl,
          ground arith,
        )
        | inl (hashed, f) ↦
            let (e, refused, kept) =
              create_user_taken t users docs laws req.email hashed clock.created clock.updated w v
                has same in
            (
              fail_with internal (codes "failed to create user") none,
              ground arith,
              refl,
              ground arith,
            )
      ]
