-- ===== src/Data/Messages/History.antt =====
-- The history of two users: what it holds, and in which order.
use rea_time_chat_g_rpc.Base.{
  ℕ, suc, ◌≤◌, ◌≡◌, refl, ap, sym, subst, ◌∙◌, inl, inr, Bool, true, false, ◌&&◌, ◌||◌, List, [],
  ◌∷◌, ◌++◌, reverse, arith, Text, text_eq, length, take, keep, SameEntries, length-take-le, pos,
  negsuc, ok, Result-cases,
}
use rea_time_chat_g_rpc.Normalize.{CaseTable, email}
use rea_time_chat_g_rpc.Data.Models.{Message}
use rea_time_chat_g_rpc.Data.Bson.{bson_date}
use rea_time_chat_g_rpc.Data.Messages.{
  Field, Clause, Filter, FindOptions, MessagesColl, history_filter, get_message_history,
}
use rea_time_chat_g_rpc.Data.Messages.Order.{
  Falling, Rising, Falling-take, Rising-reverse, length-reverse,
}
use rea_time_chat_g_rpc.Data.Messages.Reversal.{reverse_messages-reverse}

-- The text of a field; `sent_at` is no text and equals none.
abbrev pub is_text : Field → Message → Text → Bool
is_text Field.from_email m s = text_eq m.from_email s
is_text Field.to_email m s = text_eq m.to_email s
is_text Field.content m s = text_eq m.content s
is_text Field.sent_at m s = false

abbrev pub meets_clause : Clause → Message → Bool
meets_clause [] m = true
meets_clause ((f, s) ∷ c) m = is_text f m s && meets_clause c m

-- Whether a message meets a filter.
abbrev pub meets : Filter → Message → Bool
meets [] m = false
meets (c ∷ f) m = meets_clause c m || meets f m

-- The document of a message, under the id that it got.
abbrev pub stored_as : ℕ → Message → Message
stored_as id m = record m {
  id = id;
  sent_at = bson_date m.sent_at;
  created_at = bson_date m.created_at;
}

-- What MongoDB documents of the collection; `docs w` are its documents.
pub record IsMessagesColl {W C : Type 0} (coll : MessagesColl W C) (docs : W → List Message)
    : Type 0 where
  pub insert_ok :
      (m : Message) (w : W) (id : ℕ)
      → (coll.insert_one m w).0 ≡ ok id
      → docs (coll.insert_one m w).1 ≡ docs w ++ stored_as id m ∷ []
  -- A search with a falling sort on "sent_at" and a positive limit reads the first documents of an
  -- ordered list of all that meet the filter.
  pub find_ok :
      (f : Filter) (n : ℕ) (w : W) (c : C) (ms : List Message)
      → coll.find f (record { sort = (Field.sent_at, negsuc 0); limit = pos (suc n) }) w ≡ ok c
      → coll.all_messages c w ≡ ok ms
      → (full : List Message) × Falling full
        × SameEntries full (keep (meets f) (docs w))
        × (ms ≡ take (suc n) full)

-- Whether a message went between the two addresses, in either direction.
abbrev pub between : Text → Text → Message → Bool
between mail1 mail2 m =
    (text_eq m.from_email mail1 && text_eq m.to_email mail2)
    || (text_eq m.from_email mail2 && text_eq m.to_email mail1)

-- Whether it went between the two users.
abbrev pub exchanged : CaseTable → Text → Text → Message → Bool
exchanged t user1 user2 = between (email t user1) (email t user2)

module _ (t : CaseTable) {W C : Type 0} (coll : MessagesColl W C) (docs : W → List Message)
    (laws : IsMessagesColl coll docs) where
  meets-exchanged :
      (user1 user2 : Text) (m : Message)
      → meets (history_filter (email t user1) (email t user2)) m ≡ exchanged t user1 user2 m
  unfolding history_filter
  meets-exchanged user1 user2 m = ground arith

  keep-exchanged :
      (user1 user2 : Text) (ms : List Message)
      → keep (meets (history_filter (email t user1) (email t user2))) ms
        ≡ keep (exchanged t user1 user2) ms
  keep-exchanged user1 user2 ms = λ i. keep (λ m. meets-exchanged user1 user2 m i) ms

  -- `ms` are, oldest first, the newest of all stored messages between the two users, at most `suc n`.
  abbrev pub IsHistory : Text → Text → ℕ → W → List Message → Type 0
  IsHistory user1 user2 n w ms =
      Rising ms
      × (length ms ≤ suc n)
      × ((full : List Message) × Falling full
          × SameEntries full (keep (exchanged t user1 user2) (docs w))
          × (ms ≡ reverse (take (suc n) full)))

  reverse-IsHistory :
      (user1 user2 : Text) (n : ℕ) (w : W) (full : List Message)
      → Falling full
      → SameEntries full (keep (meets (history_filter (email t user1) (email t user2))) (docs w))
      → IsHistory user1 user2 n w (reverse (take (suc n) full))
  reverse-IsHistory user1 user2 n w full fall same =
      let cut = take (suc n) full in
      (
        Rising-reverse cut (Falling-take (suc n) full fall),
        rw (length-reverse cut) (length-take-le (suc n) full),
        (full, fall, subst (SameEntries full) (keep-exchanged user1 user2 (docs w)) same, refl),
      )

  -- With the documented behaviour of the database and a positive limit: a history that is read
  -- holds, oldest first, the newest messages of all that the two users exchanged, as many as the
  -- limit allows, and no other message.
  pub get_message_history_ok :
      (user1 user2 : Text) (n : ℕ) (w : W) (ms : List Message)
      → get_message_history t coll user1 user2 (pos (suc n)) w ≡ ok ms
      → IsHistory user1 user2 n w ms
  unfolding get_message_history
  get_message_history_ok user1 user2 n w ms e =
      let filter = history_filter (email t user1) (email t user2) in
      let opts : FindOptions = record { sort = (Field.sent_at, negsuc 0); limit = pos (suc n) } in
      elim (Result-cases (coll.find filter opts w)) [
        | inl (c, found) ↦ elim (Result-cases (coll.all_messages c w)) [
          | inl (xs, read) ↦
              let (full, fall, same, cut) = laws.find_ok filter n w c xs found read in
              subst (IsHistory user1 user2 n w)
                (sym (reverse_messages-reverse xs ∙ ap reverse cut) ∙ (ground arith))
                (reverse-IsHistory user1 user2 n w full fall same)
          | inr (_, failed) ↦ absurd (ground arith)
        ]
        | inr (_, failed) ↦ absurd (ground arith)
      ]
