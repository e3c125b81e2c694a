-- ===== src/Api/Validation/Tests.antt =====
-- A timestamp library that finds fault with the time 0.
use rea_time_chat_g_rpc.Base.{ℕ, zero, suc, ◌≡◌, refl, Option, none, some, [], codes, false}
use rea_time_chat_g_rpc.Errors.{Error, eof}
use rea_time_chat_g_rpc.Wire.{ChatStreamResponse}
use rea_time_chat_g_rpc.Api.Validation.{
  Embedded, first, embedded_error, with_timestamp, check_first, chat_stream_response_validate,
  chat_stream_response, validate,
}

abbrev fault : Option ℕ → Option Error
fault none = none
fault (some zero) = some eof
fault (some (suc n)) = none

abbrev strict : Embedded
strict = record { validate_all = some fault; validate = some fault }

abbrev untimed : ChatStreamResponse
untimed = record { msg_id = []; from_email = []; content = []; sent_at = 0 }

untimed_example :
    validate strict (chat_stream_response (some untimed)) false
    ≡ first (embedded_error (codes "ChatStreamResponse") (codes "SentAt") eof)
unfolding validate chat_stream_response_validate with_timestamp check_first
untimed_example = refl
