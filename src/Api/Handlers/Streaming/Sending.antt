-- ===== src/Api/Handlers/Streaming/Sending.antt =====
-- What `GetHistory` has sent when it returns without an error.
use rea_time_chat_g_rpc.Base.{
  ℕ, ◌≡◌, refl, sym, inl, inr, none, some, List, [], ◌∷◌, ◌++◌, map, append-nil, append_assoc,
  arith, Text, codes, pos, ok, Result-cases, Option-cases,
}
use rea_time_chat_g_rpc.Auth.{Claims}
use rea_time_chat_g_rpc.Data.Models.{Message}
use rea_time_chat_g_rpc.Api.Stores.{MessagesStore}
use rea_time_chat_g_rpc.Api.Requests.{GetHistoryRequest, GetHistoryResponse}
use rea_time_chat_g_rpc.Api.Interceptors.{Call}
use rea_time_chat_g_rpc.Api.Handlers.Streaming.{
  ServerStream, returned, send_items, message_response, get_history,
}

-- `sent w` is what the client has been sent; a `Send` without an error adds its response to it.
abbrev pub IsLogged : {R W : Type 0} → ServerStream R W → (W → List R) → Type 0
IsLogged {R} {W} stream sent =
    (r : R) (w : W) → (stream.send r w).0 ≡ none → sent (stream.send r w).1 ≡ sent w ++ r ∷ []

-- The response shows the message, field by field.
abbrev pub Shows : (ℕ → Text) → Message → GetHistoryResponse → Type 0
Shows hex m r =
    (r.msg_id ≡ hex m.id)
    × (r.from_email ≡ m.from_email)
    × (r.to_email ≡ m.to_email)
    × (r.content ≡ m.content)
    × (r.sent_at ≡ m.sent_at)

-- The responses show the messages, one each and in their order.
abbrev pub AllShown : (ℕ → Text) → List Message → List GetHistoryResponse → Type 0
AllShown hex [] [] = Unit
AllShown hex [] (r ∷ rs) = ⊥
AllShown hex (m ∷ ms) [] = ⊥
AllShown hex (m ∷ ms) (r ∷ rs) = Shows hex m r × AllShown hex ms rs

send_items-sent :
    {A R W : Type 0} (stream : ServerStream R W) (sent : W → List R)
    → IsLogged stream sent
    → (response : A → R) (format : Text) (items : List A) (w : W)
    → (send_items stream response format items w).0 ≡ returned none
    → sent (send_items stream response format items w).1 ≡ sent w ++ map response items
unfolding send_items
send_items-sent stream sent logged response format [] w e = sym (append-nil (sent w))
send_items-sent stream sent logged response format (a ∷ items) w e =
    let w' = (stream.send (response a) w).1 in
    elim (Option-cases (stream.send (response a) w).0) [
      | inr (_, f) ↦ absurd (ground arith)
      | inl f ↦
          let later = send_items-sent stream sent logged response format items w' (ground arith) in
          ground (
            arith,
            later,
            logged (response a) w f,
            append_assoc (sent w) (response a ∷ []) (map response items),
          )
    ]

module _ (hex : ℕ → Text) {W : Type 0} (msgs : MessagesStore W) where
  -- If `Send` logs its response whenever it reports no error: a `GetHistory` that returns without
  -- an error has sent exactly the history of the caller with the user of the request, read with a
  -- limit of 100, in its order.
  pub get_history-sent :
      (stream : ServerStream GetHistoryResponse W) (sent : W → List GetHistoryResponse)
      (call : Call) (req : GetHistoryRequest) (w : W)
      → IsLogged stream sent
      → (get_history hex msgs stream call req w).0 ≡ returned none
      → (c : Claims) × (ms : List Message) × (call.claims ≡ some c)
        × (msgs.get_message_history c.email req.with_email (pos 100) w ≡ ok ms)
        × (sent (get_history hex msgs stream call req w).1
            ≡ sent w ++ map (message_response hex msgs) ms)
  unfolding get_history
  get_history-sent stream sent call req w logged e = elim (Option-cases call.claims) [
    | inl f ↦ absurd (ground arith)
    | inr (c, f) ↦
        elim (Result-cases (msgs.get_message_history c.email req.with_email (pos 100) w)) [
          | inr (_, g) ↦ absurd (ground arith)
          | inl (ms, g) ↦ (
            c,
            ms,
            f,
            g,
            ground (
              arith,
              send_items-sent stream sent logged (message_response hex msgs)
                  (codes "failed to send message: %v") ms w (ground arith),
            ),
          )
        ]
  ]

  pub message_response-Shows : (m : Message) → Shows hex m (message_response hex msgs m)
  unfolding message_response
  message_response-Shows m = (refl, refl, refl, refl, refl)

  pub map-AllShown : (ms : List Message) → AllShown hex ms (map (message_response hex msgs) ms)
  map-AllShown [] = tt
  map-AllShown (m ∷ ms) = (message_response-Shows m, map-AllShown ms)
