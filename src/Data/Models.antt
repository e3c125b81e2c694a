-- ===== src/Data/Models.antt =====
-- internal/data/models.go
use rea_time_chat_g_rpc.Base.{ℕ, Text}

-- `bson.ObjectID` by its number, and a `time.Time` by its nanoseconds
pub record User : Type 0 where
  pub id : ℕ
  pub email : Text
  pub password : Text
  pub created_at : ℕ
  pub updated_at : ℕ

pub record Message : Type 0 where
  pub id : ℕ
  pub from_email : Text
  pub to_email : Text
  pub content : Text
  pub sent_at : ℕ
  pub created_at : ℕ

pub record ChatPartner : Type 0 where
  pub email : Text
  pub last_message : Text
  pub last_message_time : ℕ
