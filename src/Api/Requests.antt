-- ===== src/Api/Requests.antt =====
-- The messages of proto/chat/v1/chat.pb.go that the handlers read and write.
use rea_time_chat_g_rpc.Base.{ℕ, Text, ℤ}

pub record RegisterRequest : Type 0 where
  pub email : Text
  pub password : Text

pub record RegisterResponse : Type 0 where
  pub token : Text
  pub user_id : Text
  pub expires_at : ℕ

pub record LoginRequest : Type 0 where
  pub email : Text
  pub password : Text

pub record LoginResponse : Type 0 where
  pub token : Text
  pub user_id : Text
  pub expires_at : ℕ

pub record ListChatsRequest : Type 0 where
  pub limit : ℤ

pub record ListChatsResponse : Type 0 where
  pub email : Text
  pub last_message : Text
  pub last_message_at : ℕ

pub record GetHistoryRequest : Type 0 where
  pub with_email : Text

pub record GetHistoryResponse : Type 0 where
  pub msg_id : Text
  pub from_email : Text
  pub to_email : Text
  pub content : Text
  pub sent_at : ℕ

pub record ChatStreamRequest : Type 0 where
  pub to_email : Text
  pub content : Text
