-- ===== src/Wire.antt =====
-- The messages that the server's streams carry (proto/chat/v1/chat.pb.go), and the streams
-- themselves, which gRPC implements.
use rea_time_chat_g_rpc.Base.{ℕ, Text, Option}
use rea_time_chat_g_rpc.Errors.{Error}

-- `v1.ChatStreamResponse`
pub record ChatStreamResponse : Type 0 where
  pub msg_id : Text
  pub from_email : Text
  pub content : Text
  pub sent_at : ℕ

-- `StreamSender`: what a stream's `Send` does to the world, and the error that it returns.
pub record StreamSender (S W : Type 0) : Type 0 where
  pub send : S → ChatStreamResponse → W → Option Error × W
