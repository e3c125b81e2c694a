-- ===== src/Api/Stores.antt =====
-- The interfaces of cmd/api/server.go through which the handlers use the stores, and the stores of
-- internal/data behind them. `W` is the world in which the database lives.
use rea_time_chat_g_rpc.Base.{ℕ, Bool, Option, List, Text, ℤ, Result}
use rea_time_chat_g_rpc.Errors.{Error}
use rea_time_chat_g_rpc.Normalize.{CaseTable}
use rea_time_chat_g_rpc.Data.Models.{User, Message, ChatPartner}
use rea_time_chat_g_rpc.Data.Users.{UsersColl, create_user, get_user_by_email, user_exists}
use rea_time_chat_g_rpc.Data.Messages.{
  MessagesColl, save_message, get_recent_chats, get_message_history,
}

-- `CreateUser` takes the two readings of the clock that it makes.
pub record UsersStore (W : Type 0) : Type 0 where
  pub create_user : Text → Text → ℕ → ℕ → W → Result Error User × W
  pub get_user_by_email : Text → W → Result Error User
  pub user_exists : Text → W → Result Error Bool

-- `SaveMessage` takes the reading of the clock that it makes; `GetRecentChats` may panic.
pub record MessagesStore (W : Type 0) : Type 0 where
  pub save_message : Text → Text → Text → ℕ → ℕ → W → Result Error Message × W
  pub get_recent_chats : Text → ℤ → W → Option (Result Error (List ChatPartner))
  pub get_message_history : Text → Text → ℤ → W → Result Error (List Message)

-- What `main` passes to `newServer`.
abbrev pub users_store : CaseTable → {W : Type 0} → UsersColl W → UsersStore W
users_store t coll = record {
  create_user = create_user t coll;
  get_user_by_email = get_user_by_email t coll;
  user_exists = user_exists t coll;
}

abbrev pub messages_store : CaseTable → {W C : Type 0} → MessagesColl W C → MessagesStore W
messages_store t coll = record {
  save_message = save_message t coll;
  get_recent_chats = get_recent_chats t coll;
  get_message_history = get_message_history t coll;
}
