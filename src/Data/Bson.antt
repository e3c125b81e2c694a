-- ===== src/Data/Bson.antt =====
-- The documents that an aggregation of internal/data/messages.go yields, and their type assertions.
use rea_time_chat_g_rpc.Base.{
  ℕ, ◌*◌, ◌/◌, Option, none, some, List, [], ◌∷◌, Text, codes, text_eq, if◌then◌else◌,
}
use rea_time_chat_g_rpc.Data.Models.{ChatPartner}

-- A time in nanoseconds as a BSON date, which has milliseconds.
abbrev pub bson_date : ℕ → ℕ
bson_date ns = ns / 1000000 * 1000000

-- A value of a decoded document. A date comes as `bson.DateTime` or as `time.Time`.
mutual
  pub data Bson : Type 0 where
    str : Text → Bson
    date_time : ℕ → Bson
    time : ℕ → Bson
    doc : Entries → Bson

  -- `bson.M`
  pub data Entries : Type 0 where
    nil : Entries
    entry : Text → Bson → Entries → Entries

-- `m[k]` of a `bson.M`
unfoldable pub entry_at : Text → Entries → Option Bson
entry_at k nil = none
entry_at k (entry j v m) = if text_eq j k then some v else entry_at k m

-- The type assertions; `none` is their panic.
abbrev pub as_str : Option Bson → Option Text
as_str (some (str s)) = some s
as_str _ = none

abbrev pub as_time : Option Bson → Option ℕ
as_time (some (time n)) = some n
as_time _ = none

abbrev pub as_doc : Option Bson → Option Entries
as_doc (some (doc m)) = some m
as_doc _ = none

infixl 5 ◌>>=◌
abbrev ◌>>=◌ : {A B : Type 0} → Option A → (A → Option B) → Option B
none >>= f = none
some a >>= f = f a

unfoldable pub decode_partner : Entries → Option ChatPartner
decode_partner result = do
  id ← as_doc (entry_at (codes "_id") result)
  partner ← as_str (entry_at (codes "partner") id)
  last ← as_str (entry_at (codes "last_message") result)
  at ← as_time (entry_at (codes "last_message_at") result)
  some (record { email = partner; last_message = last; last_message_time = at })

unfoldable pub decode_partners : List Entries → Option (List ChatPartner)
decode_partners [] = some []
decode_partners (r ∷ rs) = do
  partner ← decode_partner r
  partners ← decode_partners rs
  some (partner ∷ partners)
