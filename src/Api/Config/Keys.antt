-- ===== src/Api/Config/Keys.antt =====
-- How `JWT_KEYS` and `RATE_LIMIT_RPM` are read.
use rea_time_chat_g_rpc.Base.{
  ℕ, ◌<◌, ◌≡◌, ◌≢◌, refl, ◌∙◌, some, List, [], ◌∷◌, ◌++◌, arith, Text, text_discrete, insert, All,
  ok,
}
use rea_time_chat_g_rpc.Auth.{copy_keys}
use rea_time_chat_g_rpc.Api.Config.{
  Env, cons_first, split, split_2, parse_pairs, int_bound, atoi, rate_rpm,
}

abbrev pub Avoids : ℕ → Text → Type 0
Avoids sep = All (λ c. c ≢ sep)

-- An id without the two separators, and a secret without commas.
abbrev pub IsPlain : Text × Text → Type 0
IsPlain (k, v) = Avoids b':' k × Avoids b',' k × Avoids b',' v

-- The value of `JWT_KEYS` for a list of keys, as the comment in `main` documents it.
abbrev pub print_pair : Text × Text → Text
print_pair (k, v) = k ++ b':' ∷ v

abbrev pub print_keys : List (Text × Text) → Text
print_keys [] = []
print_keys (p ∷ []) = print_pair p
print_keys (p ∷ q ∷ ps) = print_pair p ++ b',' ∷ print_keys (q ∷ ps)

split-single : (sep : ℕ) (p : Text) → Avoids sep p → split sep p ≡ p ∷ []
unfolding split cons_first
split-single sep [] h = refl
split-single sep (c ∷ p) h = ground (arith, split-single sep p h.1)

split-append : (sep : ℕ) (p s : Text) → Avoids sep p → split sep (p ++ sep ∷ s) ≡ p ∷ split sep s
unfolding split cons_first
split-append sep [] s h = ground arith
split-append sep (c ∷ p) s h = ground (arith, split-append sep p s h.1)

split_2-append : (sep : ℕ) (k v : Text) → Avoids sep k → split_2 sep (k ++ sep ∷ v) ≡ some (k, v)
unfolding split_2
split_2-append sep [] v h = ground arith
split_2-append sep (c ∷ k) v h = ground (arith, split_2-append sep k v h.1)

print_pair-Avoids : (p : Text × Text) → IsPlain p → Avoids b',' (print_pair p)
print_pair-Avoids ([], v) h = ((λ e. omega arith), h.2)
print_pair-Avoids (c ∷ k, v) h = (h.1.0, print_pair-Avoids (k, v) (h.0.1, h.1.1, h.2))

parse_pairs-pair :
    (p : Text × Text) (pairs : List Text) (m : List (Text × Text))
    → IsPlain p
    → parse_pairs (print_pair p ∷ pairs) m ≡ parse_pairs pairs (insert text_discrete p.0 p.1 m)
unfolding parse_pairs
parse_pairs-pair ([], v) pairs m h = ground (arith, split_2-append b':' [] v h.0)
parse_pairs-pair (c ∷ k, v) pairs m h = ground (arith, split_2-append b':' (c ∷ k) v h.0)

-- `main` reads back the keys that `JWT_KEYS` lists, in order, if no id has a colon or a comma in
-- it and no secret a comma.
pub parse_pairs-print_keys :
    (ps m : List (Text × Text))
    → All IsPlain ps
    → parse_pairs (split b',' (print_keys ps)) m ≡ ok (copy_keys ps m)
unfolding parse_pairs split copy_keys
parse_pairs-print_keys [] m h = refl
parse_pairs-print_keys (p ∷ []) m h =
    rw (split-single b',' (print_pair p) (print_pair-Avoids p h.0)) (parse_pairs-pair p [] m h.0)
parse_pairs-print_keys (p ∷ q ∷ ps) m h =
    rw (split-append b',' (print_pair p) (print_keys (q ∷ ps)) (print_pair-Avoids p h.0)) (
      parse_pairs-pair p _ m h.0
      ∙ parse_pairs-print_keys (q ∷ ps) (insert text_discrete p.0 p.1 m) h.1)

-- Whatever `RATE_LIMIT_RPM` holds, the limit is positive and fits an `int`.
pub rate_rpm-bounds : (env : Env) → (0 < rate_rpm env) × (rate_rpm env < int_bound)
unfolding rate_rpm atoi
rate_rpm-bounds env = ground arith
