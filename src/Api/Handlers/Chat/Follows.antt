-- ===== src/Api/Handlers/Chat/Follows.antt =====
-- The messages of a chat stream, as its requests ask for them.
use rea_time_chat_g_rpc.Base.{ℕ, suc, Option, some, ◌≢◌, ◌≡◌, ◌⊎◌, List, [], ◌∷◌, ◌++◌, err}
use rea_time_chat_g_rpc.Errors.{Error, Status}
use rea_time_chat_g_rpc.Normalize.{CaseTable, email}
use rea_time_chat_g_rpc.Wire.{ChatStreamResponse, StreamSender}
use rea_time_chat_g_rpc.Auth.{Claims}
use rea_time_chat_g_rpc.Data.Models.{Message}
use rea_time_chat_g_rpc.Data.Messages.{MessagesColl}
use rea_time_chat_g_rpc.Data.Messages.History.{stored_as}
use rea_time_chat_g_rpc.Data.Bson.{bson_date}
use rea_time_chat_g_rpc.Api.Html.{escape_string}
use rea_time_chat_g_rpc.Api.Requests.{ChatStreamRequest}
use rea_time_chat_g_rpc.Api.Handlers.Chat.{Recv, received, closed, failed}

-- The stored message of a request: from the user of the claims, with the content escaped, and the time in
-- milliseconds.
abbrev pub IsOf : CaseTable → Claims → ChatStreamRequest → ℕ → Message → Type 0
IsOf t claims req at m =
    (m.from_email ≡ email t claims.email)
    × (m.to_email ≡ email t req.to_email)
    × (m.content ≡ escape_string req.content)
    × (m.sent_at ≡ bson_date at)

-- The messages are those of the first requests, in their order.
abbrev pub Follow : CaseTable → Claims → List Recv → List Message → Type 0
Follow t claims rs [] = Unit
Follow t claims [] (m ∷ ms) = ⊥
Follow t claims (closed ∷ rs) (m ∷ ms) = ⊥
Follow t claims (failed e ∷ rs) (m ∷ ms) = ⊥
Follow t claims (received req at now ∷ rs) (m ∷ ms) = IsOf t claims req at m × Follow t claims rs ms

-- How many messages a handler receives before the stream is closed or fails.
abbrev pub asked : List Recv → ℕ
asked [] = 0
asked (closed ∷ rs) = 0
asked (failed e ∷ rs) = 0
asked (received req at now ∷ rs) = suc (asked rs)

-- The handler is still waiting, or has returned nil.
abbrev pub IsFine : Option (Option Status) → Type 0
IsFine end = (e : Status) → end ≢ some (some e)

-- What is documented of the database and the streams: an insertion that fails has stored the document or
-- nothing, and a `Send` on a stream stores nothing.
pub record Stores {W C S : Type 0} (msgs : MessagesColl W C) (docs : W → List Message)
    (net : StreamSender S W) : Type 0 where
  pub insert_err :
      (m : Message) (w : W) (e : Error)
      → (msgs.insert_one m w).0 ≡ err e
      → (docs (msgs.insert_one m w).1 ≡ docs w)
        ⊎ ((id : ℕ) × (docs (msgs.insert_one m w).1 ≡ docs w ++ stored_as id m ∷ []))
  pub sends : (s : S) (resp : ChatStreamResponse) (w : W) → docs (net.send s resp w).1 ≡ docs w
