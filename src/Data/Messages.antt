-- ===== src/Data/Messages.antt =====
-- internal/data/messages.go over the collection "messages" of MongoDB, which is the parameter
-- `MessagesColl`. Filters and pipelines are the documents that the code builds.
pub mod Reversal
pub mod Order
pub mod History
pub mod Saved
pub mod Dates
use rea_time_chat_g_rpc.Base.{
  ℕ, zero, suc, ◌+◌, ◌-◌, ◌≡◌, Bool, true, false, ◌&&◌, ◌||◌, Option, none, some, List, [], ◌∷◌,
  ◌++◌, Text, codes, length, get_elem?, set, ltb, text_eq, if◌then◌else◌, ℤ, negsuc, Result, ok,
  err, ◌>>=◌,
}
use rea_time_chat_g_rpc.Errors.{Error}
use rea_time_chat_g_rpc.Normalize.{CaseTable, email}
use rea_time_chat_g_rpc.Data.Models.{Message, ChatPartner}
use rea_time_chat_g_rpc.Data.Bson.{Entries, decode_partners}

pub data Field : Type 0 where
  from_email to_email content sent_at : Field

-- A `bson.M` of fields and the texts that they must equal, and an `$or` of such.
abbrev pub Clause : Type 0
Clause = List (Field × Text)

abbrev pub Filter : Type 0
Filter = List Clause

-- `SetSort` of a field, with -1 for a falling order, and `SetLimit`
pub record FindOptions : Type 0 where
  pub sort : Field × ℤ
  pub limit : ℤ

-- An expression of the aggregation: `"$field"`, a literal, `$eq`, `$cond`.
pub data Expr : Type 0 where
  field : Field → Expr
  lit : Text → Expr
  eq : Expr → Expr → Expr
  cond : Expr → Expr → Expr → Expr

-- A stage: `$match` of an `$or`; `$group` by a document with one key, with `$last` accumulators;
-- `$sort` by an accumulated field; `$limit`.
pub data Stage : Type 0 where
  match : Filter → Stage
  group : Text → Expr → List (Text × Expr) → Stage
  sort : Text → ℤ → Stage
  limit : ℤ → Stage

-- The driver's calls, on a world `W`; `C` is the type of its cursors.
pub record MessagesColl (W C : Type 0) : Type 0 where
  pub insert_one : Message → W → Result Error ℕ × W
  pub find : Filter → FindOptions → W → Result Error C
  pub aggregate : List Stage → W → Result Error C
  pub all_messages : C → W → Result Error (List Message)
  pub all_documents : C → W → Result Error (List Entries)

-- The filter of `GetMessageHistory`, on two normalized addresses.
unfoldable pub history_filter : Text → Text → Filter
history_filter u1 u2 =
    ((from_email, u1) ∷ (to_email, u2) ∷ []) ∷ ((from_email, u2) ∷ (to_email, u1) ∷ []) ∷ []

-- The exchange of two elements; an index out of range, which would panic, changes nothing.
unfoldable pub swap : ℕ → ℕ → List Message → List Message
swap i j ms = elim (get_elem? ms i) [
  | none ↦ ms
  | some a ↦ elim (get_elem? ms j) [ none ↦ ms | some b ↦ set (set ms i b) j a ]
]

-- The loop on two pointers, with fuel.
unfoldable pub swap_loop : ℕ → ℕ → ℕ → List Message → List Message
swap_loop zero i j ms = ms
swap_loop (suc fuel) i j ms =
    let rest = swap_loop fuel (i + 1) (j - 1) (swap i j ms) in if ltb i j then rest else ms

-- `j` starts at `len(messages) - 1`, which is -1 on no message: the loop then ends at once.
unfoldable pub reverse_messages : List Message → List Message
reverse_messages ms = swap_loop (length ms) 0 (length ms - 1) ms

-- The pipeline of `GetRecentChats`, on a normalized address.
unfoldable pub recent_pipeline : Text → ℤ → List Stage
recent_pipeline user_email n =
    match (((from_email, user_email) ∷ []) ∷ ((to_email, user_email) ∷ []) ∷ [])
    ∷ group (codes "partner")
        (cond (eq (field from_email) (lit user_email)) (field to_email) (field from_email))
        ((codes "last_message", field content) ∷ (codes "last_message_at", field sent_at) ∷ [])
    ∷ sort (codes "last_message_at") (negsuc 0)
    ∷ limit n
    ∷ []

-- The document that `SaveMessage` inserts; its `_id` is unset.
unfoldable pub new_message : CaseTable → Text → Text → Text → ℕ → ℕ → Message
new_message t from to text at now = record {
  id = 0;
  from_email = email t from;
  to_email = email t to;
  content = text;
  sent_at = at;
  created_at = now;
}

module _ (t : CaseTable) {W C : Type 0} (coll : MessagesColl W C) where
  unfoldable pub save_message : Text → Text → Text → ℕ → ℕ → W → Result Error Message × W
  save_message from to text at now w =
      let msg = new_message t from to text at now in
      let (result, w') = coll.insert_one msg w in
      elim result [
        | err e ↦ (err e, w')
        | ok inserted_id ↦ (ok (record msg { id = inserted_id }), w')
      ]

  unfoldable pub get_message_history : Text → Text → ℤ → W → Result Error (List Message)
  get_message_history user1 user2 n w = do
    let opts : FindOptions = record { sort = (sent_at, negsuc 0); limit = n }
    cursor ← coll.find (history_filter (email t user1) (email t user2)) opts w
    messages ← coll.all_messages cursor w
    ok (reverse_messages messages)

  -- `none` is a panic of a type assertion.
  unfoldable pub get_recent_chats : Text → ℤ → W → Option (Result Error (List ChatPartner))
  get_recent_chats user_email n w =
      elim (coll.aggregate (recent_pipeline (email t user_email) n) w) [
        | err e ↦ some (err e)
        | ok cursor ↦ elim (coll.all_documents cursor w) [
          | err e ↦ some (err e)
          | ok results ↦ elim (decode_partners results) [
            | none ↦ none
            | some partners ↦ some (ok partners)
          ]
        ]
      ]
