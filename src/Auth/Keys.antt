-- ===== src/Auth/Keys.antt =====
-- Which keys a manager holds, and when it can sign.
use rea_time_chat_g_rpc.Base.{
  ℕ, ◌+◌, ◌≡◌, ◌≢◌, refl, sym, ◌∙◌, inl, inr, Option, none, some, List, [], ◌∷◌, arith, ◌⊎◌, Text,
  text_discrete, lookup, insert, lookup-insert, UniqueKeys, insert-UniqueKeys, Ranges, Option-cases,
  Result, ok, err, Result-cases,
}
use rea_time_chat_g_rpc.Errors.{Error}
use rea_time_chat_g_rpc.Normalize.{CaseTable, email}
use rea_time_chat_g_rpc.Auth.{
  Claims, TokenLib, JwtManager, copy_keys, first_kid, pick_kid, new_jwt_manager_from_keys,
  generate_token,
}

abbrev or_else : Option Text → Option Text → Option Text
or_else none o = o
or_else (some v) o = some v

lookup-copy_keys :
    (key_map keys : List (Text × Text)) (k : Text)
    → UniqueKeys text_discrete key_map
    → lookup text_discrete k (copy_keys key_map keys)
      ≡ or_else (lookup text_discrete k key_map) (lookup text_discrete k keys)
unfolding copy_keys lookup
lookup-copy_keys [] keys k u = refl
lookup-copy_keys ((j, v) ∷ key_map) keys k u = ground (
  arith,
  lookup-copy_keys key_map (insert text_discrete j v keys) k u.1,
  lookup-insert text_discrete j k v keys,
)

copy_keys-UniqueKeys :
    (key_map keys : List (Text × Text))
    → UniqueKeys text_discrete keys
    → UniqueKeys text_discrete (copy_keys key_map keys)
unfolding copy_keys
copy_keys-UniqueKeys [] keys u = u
copy_keys-UniqueKeys ((j, v) ∷ key_map) keys u =
    copy_keys-UniqueKeys key_map (insert text_discrete j v keys)
      (insert-UniqueKeys text_discrete j v keys u)

-- What `GenerateToken` signs.
abbrev pub issued_claims : CaseTable → TokenLib → JwtManager → ℕ → Text → ℕ → ℕ → Claims
issued_claims t lib m user_id mail now later = record {
  user_id = lib.hex user_id;
  email = email t mail;
  expires_at = some (lib.numeric_date (now + m.duration));
  issued_at = some (lib.numeric_date later);
}

-- The answer to the result of a signature.
abbrev pub with_expiry : ℕ → Result Error Text → Result Error (Text × ℕ)
with_expiry expires_at (err e) = err e
with_expiry expires_at (ok s) = ok (s, expires_at)

-- With its active key at hand a manager issues what the library signs.
generate_token-active :
    (t : CaseTable) (lib : TokenLib) (m : JwtManager) (user_id : ℕ) (mail : Text) (now later : ℕ)
    {key : Text}
    → lookup text_discrete m.active m.keys ≡ some key
    → generate_token t lib m user_id mail now later
      ≡ with_expiry
          (now + m.duration)
          (lib.sign_hs256 m.active (issued_claims t lib m user_id mail now later) key)
unfolding generate_token
generate_token-active t lib m user_id mail now later {key} present =
    let signed = lib.sign_hs256 m.active (issued_claims t lib m user_id mail now later) key in
    elim (Result-cases signed) [ inl (_, e) ↦ ground arith | inr (_, e) ↦ ground arith ]

module _ (order : List (Text × Text) → List (Text × Text))
    (ranges : Ranges text_discrete order) where
  -- The manager holds exactly the keys of the map it is made from.
  pub lookup-new_jwt_manager_from_keys :
      (key_map : List (Text × Text)) (active_kid k : Text) (duration : ℕ)
      → UniqueKeys text_discrete key_map
      → lookup text_discrete k (new_jwt_manager_from_keys order key_map active_kid duration).keys
        ≡ lookup text_discrete k key_map
  unfolding new_jwt_manager_from_keys lookup
  lookup-new_jwt_manager_from_keys key_map active_kid k duration u =
      let (unique, same) = ranges key_map u in
      ground (arith, lookup-copy_keys (order key_map) [] k unique, same k)

  first_kid-present :
      (keys : List (Text × Text)) (k : Text)
      → lookup text_discrete k keys ≢ none
      → lookup text_discrete (first_kid keys) keys ≢ none
  unfolding first_kid lookup
  first_kid-present [] k h = h
  first_kid-present ((j, v) ∷ keys) k h = ground arith

  pick_kid-present :
      (keys : List (Text × Text)) (active_kid k : Text)
      → UniqueKeys text_discrete keys
      → active_kid ≡ [] ⊎ lookup text_discrete active_kid keys ≢ none
      → lookup text_discrete k keys ≢ none
      → lookup text_discrete (pick_kid active_kid (order keys)) keys ≢ none
  unfolding pick_kid
  pick_kid-present keys [] k u a h =
      let (_, same) = ranges keys u in
      let first = first_kid-present (order keys) k (rw (same k) h) in
      rw (← same (first_kid (order keys))) first
  pick_kid-present keys (c ∷ s) k u a h = ground arith

  active-present :
      (key_map : List (Text × Text)) (active_kid k : Text) (duration : ℕ)
      → UniqueKeys text_discrete key_map
      → (active_kid ≡ []) ⊎ (lookup text_discrete active_kid key_map ≢ none)
      → lookup text_discrete k key_map ≢ none
      → let m = new_jwt_manager_from_keys order key_map active_kid duration in
        lookup text_discrete m.active m.keys ≢ none
  unfolding new_jwt_manager_from_keys
  active-present key_map active_kid k duration u a h =
      let same = λ (j : Text). lookup-new_jwt_manager_from_keys key_map active_kid j duration u in
      pick_kid-present (copy_keys (order key_map) []) active_kid k
        (copy_keys-UniqueKeys (order key_map) [] tt)
        (elim a [ inl e ↦ inl e | inr n ↦ inr (rw (same active_kid) n) ]) (rw (same k) h)

  -- If `range` visits each entry of a map once: a manager made from a map with a key, and with no
  -- active id or with one of the map, can sign. Its active id names a key of the map, and
  -- `GenerateToken` answers with what the library signs with this key.
  pub generate_token-has_key :
      (t : CaseTable) (lib : TokenLib) (key_map : List (Text × Text)) (active_kid k : Text)
      (duration user_id : ℕ) (mail : Text) (now later : ℕ)
      → UniqueKeys text_discrete key_map
      → (active_kid ≡ []) ⊎ (lookup text_discrete active_kid key_map ≢ none)
      → lookup text_discrete k key_map ≢ none
      → let m = new_jwt_manager_from_keys order key_map active_kid duration in
        (key : Text) × (lookup text_discrete m.active key_map ≡ some key)
        × (generate_token t lib m user_id mail now later
            ≡ with_expiry
                (now + m.duration)
                (lib.sign_hs256 m.active (issued_claims t lib m user_id mail now later) key))
  generate_token-has_key t lib key_map active_kid k duration user_id mail now later u a h =
      let m = new_jwt_manager_from_keys order key_map active_kid duration in
      let same = lookup-new_jwt_manager_from_keys key_map active_kid m.active duration u in
      elim (Option-cases (lookup text_discrete m.active m.keys)) [
        | inl missing ↦ absurd (active-present key_map active_kid k duration u a h missing)
        | inr (key, present) ↦
            (key, sym same ∙ present, generate_token-active t lib m user_id mail now later present)
      ]
