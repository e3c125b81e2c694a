-- ===== src/Auth/Samples.antt =====
-- A toy token library, for examples: it can sign one token with one key, and knows no other.
use rea_time_chat_g_rpc.Base.{
  ℕ, ◌<◌, ◌≡◌, ap, inl, inr, Bool, true, Option, none, some, arith, Text, codes, text_discrete,
  Result, ok, err, Result-cases, text_eq, if◌then◌else◌, ltb, ◌==◌, ◌&&◌,
}
use rea_time_chat_g_rpc.Errors.{Error, message}
use rea_time_chat_g_rpc.Auth.{Claims, Token, Parsed, TokenLib}
use rea_time_chat_g_rpc.Auth.Tokens.{signed_token, IsTokenLib}
use rea_time_chat_g_rpc.Samples.{bob}

abbrev pub secret : Text
secret = codes "s"

-- The claims of the one token, and its text.
abbrev pub bob_claims : Claims
bob_claims = record { user_id = codes "u"; email = bob; expires_at = some 110; issued_at = some 11 }

abbrev pub bob_token : Text
bob_token = codes "t"

abbrev bad : Error
bad = message (codes "token is malformed")

abbrev is_some_of : Option ℕ → ℕ → Bool
is_some_of none n = Bool.false
is_some_of (some m) n = m == n

is_some_of-eq : (o : Option ℕ) (n : ℕ) → is_some_of o n ≡ true → o ≡ some n
is_some_of-eq none n h = absurd (ground arith)
is_some_of-eq (some m) n h = ap some (ground arith)

abbrev is_bob : Claims → Bool
is_bob c =
    text_eq c.user_id (codes "u")
    && text_eq c.email bob
    && is_some_of c.expires_at 110
    && is_some_of c.issued_at 11

text_eq_sound : (s t : Text) → text_eq s t ≡ true → s ≡ t
text_eq_sound s t h = elim (text_discrete s t) [ yes e ↦ e | no n ↦ absurd (ground arith) ]

is_bob-eq : (c : Claims) → is_bob c ≡ true → c ≡ bob_claims
is_bob-eq c h =
    let u = text_eq_sound c.user_id (codes "u") (ground arith) in
    let e = text_eq_sound c.email bob (ground arith) in
    let x = is_some_of-eq c.expires_at 110 (ground arith) in
    let y = is_some_of-eq c.issued_at 11 (ground arith) in
    λ i. record { user_id = u i; email = e i; expires_at = x i; issued_at = y i }

abbrev pub verifies : Text → Text → Bool
verifies s key = text_eq s bob_token && text_eq key secret

abbrev read_with : Result Error Text → Result Error Parsed
read_with (err e) = err e
read_with (ok key) =
    if text_eq key secret
    then ok (record { token = signed_token (codes "1"); claims = bob_claims; valid = true })
    else err bad

abbrev pub toy : TokenLib
toy = record {
  hex = λ id. codes "u";
  numeric_date = λ n. n;
  sign_hs256 = λ kid c key.
      if text_eq kid (codes "1") && text_eq key secret && is_bob c then ok bob_token else err bad;
  parse_with_claims = λ now s f.
      if text_eq s bob_token && ltb now 110
      then read_with (f (signed_token (codes "1")))
      else err bad;
}

toy_sound :
    (now : ℕ) (s : Text) (f : Token → Result Error Text) (p : Parsed)
    → toy.parse_with_claims now s f ≡ ok p
    → (key : Text) × (f p.token ≡ ok key) × (verifies s key ≡ true)
toy_sound now s f p h = elim (Result-cases (f (signed_token (codes "1")))) [
  | inl (key, e) ↦ (key, ground arith, ground arith)
  | inr (x, e) ↦ absurd (ground arith)
]

toy_fresh :
    (now e : ℕ) (s : Text) (f : Token → Result Error Text) (p : Parsed)
    → toy.parse_with_claims now s f ≡ ok p
    → p.claims.expires_at ≡ some e
    → now < e
toy_fresh now e s f p h q = elim (Result-cases (f (signed_token (codes "1")))) [
  | inl (key, r) ↦ ground arith
  | inr (x, r) ↦ absurd (ground arith)
]

toy_signed :
    (now e : ℕ) (kid key s : Text) (c : Claims) (f : Token → Result Error Text)
    → toy.sign_hs256 kid c key ≡ ok s
    → f (signed_token kid) ≡ ok key
    → c.expires_at ≡ some e
    → now < e
    → toy.parse_with_claims now s f
      ≡ ok (record { token = signed_token kid; claims = c; valid = true })
toy_signed now e kid key s c f h g x fresh =
    let k = text_eq_sound kid (codes "1") (ground arith) in
    let b = is_bob-eq c (ground arith) in ground (arith, k, b)

pub toy-IsTokenLib : IsTokenLib toy verifies
toy-IsTokenLib = record {
  parse_sound = toy_sound;
  parse_fresh = toy_fresh;
  parse_signed = toy_signed;
}
