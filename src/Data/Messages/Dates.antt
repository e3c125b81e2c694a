-- ===== src/Data/Messages/Dates.antt =====
-- What `GetRecentChats` makes of the dates that the driver decodes.
use rea_time_chat_g_rpc.Base.{
  ℕ, ◌≡◌, refl, inl, inr, none, some, List, [], ◌∷◌, arith, Text, codes, Has, All, ℤ, ok,
}
use rea_time_chat_g_rpc.Normalize.{CaseTable, email}
use rea_time_chat_g_rpc.Data.Bson.{Bson, Entries, entry_at, decode_partner, decode_partners}
use rea_time_chat_g_rpc.Data.Messages.{
  Field, Filter, Expr, Stage, MessagesColl, recent_pipeline, get_recent_chats,
}

-- What the driver documents of a document that is decoded into a `bson.M`: a date becomes a
-- `bson.DateTime`. It is stated for the dates that a group accumulates.
abbrev pub DecodesDates : {W C : Type 0} → MessagesColl W C → Type 0
DecodesDates {W} {C} coll =
    (f : Filter) (k : Text) (key : Expr) (accs : List (Text × Expr)) (s : Text) (o n : ℤ)
    (name : Text) (w : W) (c : C) (rs : List Entries)
    → coll.aggregate (Stage.match f ∷ Stage.group k key accs ∷ Stage.sort s o ∷ Stage.limit n ∷ [])
        w
      ≡ ok c
    → coll.all_documents c w ≡ ok rs
    → Has (name, Expr.field Field.sent_at) accs
    → All (λ r. (at : ℕ) × (entry_at name r ≡ some (Bson.date_time at))) rs

-- A date that is no `time.Time` fails the type assertion.
decode_partner-date :
    (r : Entries) (at : ℕ)
    → entry_at (codes "last_message_at") r ≡ some (Bson.date_time at)
    → decode_partner r ≡ none
unfolding decode_partner
decode_partner-date r at e = ground arith

-- With a driver that decodes dates so, `GetRecentChats` panics whenever there is a chat to return.
pub get_recent_chats_panics :
    (t : CaseTable) {W C : Type 0} (coll : MessagesColl W C)
    → DecodesDates coll
    → (user : Text) (n : ℤ) (w : W) (c : C) (r : Entries) (rs : List Entries)
    → coll.aggregate (recent_pipeline (email t user) n) w ≡ ok c
    → coll.all_documents c w ≡ ok (r ∷ rs)
    → get_recent_chats t coll user n w ≡ none
unfolding get_recent_chats recent_pipeline decode_partners
get_recent_chats_panics t coll dates user n w c r rs found read =
    let ((at, date), _) =
      dates _ _ _ _ _ _ _ (codes "last_message_at") w c (r ∷ rs) found read (inr (inl refl)) in
    ground (arith, decode_partner-date r at date)
