-- ===== src/Auth/Tokens.antt =====
-- What a verified token says, and that an issued token is verified, through key rotation too.
use rea_time_chat_g_rpc.Base.{
  ℕ, ◌+◌, ◌<◌, ◌≡◌, refl, subst, ◌∙◌, inl, inr, Bool, true, Option, none, some, arith, Text, codes,
  text_discrete, lookup, Option-cases, Result, ok, Result-cases, Bool-cases,
}
use rea_time_chat_g_rpc.Errors.{Error}
use rea_time_chat_g_rpc.Normalize.{CaseTable, IsCaseTable, email}
use rea_time_chat_g_rpc.Normalize.Laws.{email_idem}
use rea_time_chat_g_rpc.Auth.{
  Claims, Header, str, other, Token, Parsed, TokenLib, JwtManager, generate_token, active_key,
  key_of_kid, key_func, verify_token,
}

-- The token that `SignedString` writes under HS256.
abbrev pub signed_token : Text → Token
signed_token kid = record { is_hmac = true; alg = codes "HS256"; kid = some (str kid) }

-- What the JWT library documents. `verifies s key`: the signature of the text `s` fits the key.
pub record IsTokenLib (lib : TokenLib) (verifies : Text → Text → Bool) : Type 0 where
  -- A parse that succeeds took its key from the callback, and the signature fits that key.
  pub parse_sound :
      (now : ℕ) (s : Text) (f : Token → Result Error Text) (p : Parsed)
      → lib.parse_with_claims now s f ≡ ok p
      → (key : Text) × (f p.token ≡ ok key) × (verifies s key ≡ true)
  -- It does not succeed on an expired token.
  pub parse_fresh :
      (now e : ℕ) (s : Text) (f : Token → Result Error Text) (p : Parsed)
      → lib.parse_with_claims now s f ≡ ok p
      → p.claims.expires_at ≡ some e
      → now < e
  -- A token that was signed with the callback's key is read back until it expires.
  pub parse_signed :
      (now e : ℕ) (kid key s : Text) (c : Claims) (f : Token → Result Error Text)
      → lib.sign_hs256 kid c key ≡ ok s
      → f (signed_token kid) ≡ ok key
      → c.expires_at ≡ some e
      → now < e
      → lib.parse_with_claims now s f
        ≡ ok (record { token = signed_token kid; claims = c; valid = true })

key_of_kid_sound :
    (m : JwtManager) (kid : Option Header) (key : Text)
    → key_of_kid m kid ≡ ok key
    → (k : Text) × (lookup text_discrete k m.keys ≡ some key)
unfolding key_of_kid active_key
key_of_kid_sound m none key e = (m.active, ground arith)
key_of_kid_sound m (some other) key e = (m.active, ground arith)
key_of_kid_sound m (some (str k)) key e = (k, ground arith)

-- The callback accepts HMAC tokens only, and hands out only keys of the manager.
pub key_func_sound :
    (m : JwtManager) (token : Token) (key : Text)
    → key_func m token ≡ ok key
    → (token.is_hmac ≡ true) × ((k : Text) × (lookup text_discrete k m.keys ≡ some key))
unfolding key_func
key_func_sound m token key e = elim (Bool-cases token.is_hmac) [
  | inl hmac ↦ (hmac, key_of_kid_sound m token.kid key (ground arith))
  | inr other_method ↦ absurd (ground arith)
]

abbrev pub Fresh : ℕ → Option ℕ → Type 0
Fresh now none = Unit
Fresh now (some e) = now < e

-- Why the manager accepts the text `s` at the time `now`, and reads the claims `c` from it.
pub record IsAccepted (t : CaseTable) (lib : TokenLib) (verifies : Text → Text → Bool)
    (m : JwtManager) (now : ℕ) (s : Text) (c : Claims) : Type 0 where
  pub parsed : Parsed
  pub parses : lib.parse_with_claims now s (key_func m) ≡ ok parsed
  pub hmac : parsed.token.is_hmac ≡ true
  pub kid : Text
  pub key : Text
  pub known : lookup text_discrete kid m.keys ≡ some key
  pub signed : verifies s key ≡ true
  pub fresh : Fresh now c.expires_at
  pub same_user : c.user_id ≡ parsed.claims.user_id
  pub normal : c.email ≡ email t parsed.claims.email
  pub stable : email t c.email ≡ c.email

module _ (t : CaseTable) (cases : IsCaseTable t) (lib : TokenLib) (verifies : Text → Text → Bool)
    (laws : IsTokenLib lib verifies) where
  parsed_IsAccepted :
      (m : JwtManager) (now : ℕ) (s : Text) (p : Parsed)
      → lib.parse_with_claims now s (key_func m) ≡ ok p
      → IsAccepted t lib verifies m now s (record (p.claims) { email = email t p.claims.email })
  parsed_IsAccepted m now s p parses =
      let (key, handed, signed) = laws.parse_sound now s (key_func m) p parses in
      let (hmac, (kid, known)) = key_func_sound m p.token key handed in
      record {
        parsed = p;
        parses = parses;
        hmac = hmac;
        kid = kid;
        key = key;
        known = known;
        signed = signed;
        fresh = elim (Option-cases p.claims.expires_at) [
          | inl e ↦ rw e tt
          | inr (x, e) ↦ rw e (laws.parse_fresh now x s (key_func m) p parses e)
        ];
        same_user = refl;
        normal = refl;
        stable = email_idem t cases p.claims.email;
      }

  -- With the documented behaviour of the JWT library: a text is accepted only if it parses as an
  -- HMAC token whose signature fits a key of the manager and which has not expired; the claims are
  -- those of the token with the address normalized.
  pub verify_token-IsAccepted :
      (m : JwtManager) (now : ℕ) (s : Text) (c : Claims)
      → verify_token t lib m now s ≡ ok c
      → IsAccepted t lib verifies m now s c
  unfolding verify_token
  verify_token-IsAccepted m now s c e =
      elim (Result-cases (lib.parse_with_claims now s (key_func m))) [
        | inl (p, parses) ↦ elim (Bool-cases p.valid) [
          | inl valid ↦
              subst (IsAccepted t lib verifies m now s) (ground arith)
                (parsed_IsAccepted m now s p parses)
          | inr invalid ↦ absurd (ground arith)
        ]
        | inr (_, refused) ↦ absurd (ground arith)
      ]

  key_func-signed_token :
      (m n : JwtManager) (key : Text)
      → lookup text_discrete m.active n.keys ≡ some key
      → key_func n (signed_token m.active) ≡ ok key
  unfolding key_func key_of_kid
  key_func-signed_token m n key e = ground arith

  -- With the documented behaviour of the JWT library: a token issued by one manager expires after
  -- its duration, and until then it is accepted by every manager that holds the same key under the
  -- active id of the first one; it yields the user and the normalized address.
  pub verify_token-generate_token :
      (m n : JwtManager) (user_id : ℕ) (mail : Text) (now later at expires_at : ℕ) (s : Text)
      → generate_token t lib m user_id mail now later ≡ ok (s, expires_at)
      → lookup text_discrete m.active n.keys ≡ lookup text_discrete m.active m.keys
      → at < lib.numeric_date expires_at
      → (expires_at ≡ now + m.duration)
        × (verify_token t lib n at s
            ≡ ok (record {
              user_id = lib.hex user_id;
              email = email t mail;
              expires_at = some (lib.numeric_date expires_at);
              issued_at = some (lib.numeric_date later);
            }))
  unfolding generate_token verify_token
  verify_token-generate_token m n user_id mail now later at expires_at s g same h =
      elim (Option-cases (lookup text_discrete m.active m.keys)) [
        | inl missing ↦ absurd (ground arith)
        | inr (key, present) ↦ ground (
          arith,
          laws.parse_signed at (lib.numeric_date expires_at) m.active key s
              (record {
                user_id = lib.hex user_id;
                email = email t mail;
                expires_at = some (lib.numeric_date expires_at);
                issued_at = some (lib.numeric_date later);
              })
              (key_func n),
          key_func-signed_token m n key (same ∙ present),
          email_idem t cases mail,
        )
      ]
