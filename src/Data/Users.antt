-- ===== src/Data/Users.antt =====
-- internal/data/users.go over the collection "users" of MongoDB, which is the parameter `UsersColl`.
pub mod Accounts
pub mod Soundness
use rea_time_chat_g_rpc.Base.{
  ℕ, zero, ◌≡◌, Bool, true, false, Option, none, some, List, Text, codes, ltb, ◌==◌, text_eq,
  if◌then◌else◌, Result, ok, err,
}
use rea_time_chat_g_rpc.Errors.{
  Error, message, formatted, wrapped, eof, no_documents, duplicate_key,
}
use rea_time_chat_g_rpc.Normalize.{CaseTable, email}
use rea_time_chat_g_rpc.Data.Models.{User}

-- `bson.M{"email": …}` and `bson.M{"_id": …}`
pub data UserFilter : Type 0 where
  by_email : Text → UserFilter
  by_id : ℕ → UserFilter

-- The driver's calls, on a world `W` that holds the database and the state of the network.
pub record UsersColl (W : Type 0) : Type 0 where
  pub insert_one : User → W → Result Error ℕ × W
  pub find_one : UserFilter → W → Result Error User
  pub count_documents : UserFilter → W → Result Error ℕ

-- `mongo.IsDuplicateKeyError(err)`
abbrev pub is_duplicate_key : Error → Bool
is_duplicate_key duplicate_key = true
is_duplicate_key _ = false

-- `err == mongo.ErrNoDocuments`
abbrev pub is_no_documents : Error → Bool
is_no_documents no_documents = true
is_no_documents _ = false

abbrev pub insert_error : Error → Error
insert_error e = if is_duplicate_key e then message (codes "user already exists") else e

abbrev pub find_error : Error → Error
find_error e = if is_no_documents e then message (codes "user not found") else e

-- The document that `CreateUser` inserts; its `_id` is unset. `now` and `later` are two readings
-- of the clock.
unfoldable pub new_user : CaseTable → Text → Text → ℕ → ℕ → User
new_user t mail hashed_password now later = record {
  id = 0;
  email = email t mail;
  password = hashed_password;
  created_at = now;
  updated_at = later;
}

pub get_user_by_id : {W : Type 0} → UsersColl W → ℕ → W → Result Error User
get_user_by_id coll id w = elim (coll.find_one (by_id id) w) [
  | err e ↦ err (find_error e)
  | ok user ↦ ok user
]

module _ (t : CaseTable) {W : Type 0} (coll : UsersColl W) where
  unfoldable pub create_user : Text → Text → ℕ → ℕ → W → Result Error User × W
  create_user mail hashed_password now later w =
      let user = new_user t mail hashed_password now later in
      let (result, w') = coll.insert_one user w in
      elim result [
        | err e ↦ (err (insert_error e), w')
        | ok inserted_id ↦ (ok (record user { id = inserted_id }), w')
      ]

  unfoldable pub get_user_by_email : Text → W → Result Error User
  get_user_by_email mail w = elim (coll.find_one (by_email (email t mail)) w) [
    | err e ↦ err (find_error e)
    | ok user ↦ ok user
  ]

  unfoldable pub user_exists : Text → W → Result Error Bool
  user_exists mail w = elim (coll.count_documents (by_email (email t mail)) w) [
    | err e ↦ err e
    | ok count ↦ ok (ltb 0 count)
  ]

-- Whether a document meets a filter.
abbrev pub meets : UserFilter → User → Bool
meets (by_email e) u = text_eq u.email e
meets (by_id i) u = u.id == i
