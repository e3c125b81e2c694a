-- ===== src/Hub.antt =====
-- cmd/api/hub.go: the streams of the connected users. The type `S` of streams is gRPC's.
pub mod Invariant
pub mod Routing
pub mod Delivery
pub mod Broadcast
pub mod Histories
pub mod Worlds
pub mod Views
pub mod Shared
pub mod Samples
mod Tests
use rea_time_chat_g_rpc.Base.{
  ℕ, ◌+◌, ◌%◌, Option, none, some, List, [], ◌∷◌, ◌++◌, Text, codes, text_discrete, ℕ_discrete,
  length, ◌==◌, if◌then◌else◌, lookup, insert, erase,
}
use rea_time_chat_g_rpc.Errors.{Error, formatted}
use rea_time_chat_g_rpc.Wire.{ChatStreamResponse, StreamSender}

-- The number of values of an `int64`; a connection id is its bit pattern.
abbrev pub int64_mod : ℕ
int64_mod = 18446744073709551616

-- `map[int64]StreamSender`
abbrev pub Conns : Type 0 → Type 0
Conns S = List (ℕ × S)

pub record ConnectionHub (S : Type 0) : Type 0 where
  pub streams : List (Text × Conns S)
  pub next_id : ℕ

-- `if firstErr == nil { firstErr = err }`
abbrev pub first_error : Option Error → Option Error → Option Error
first_error none err = err
first_error (some e) err = some e

-- `if err != nil { failedIDs = append(failedIDs, id) }`
abbrev pub note_failed : List ℕ → ℕ → Option Error → List ℕ
note_failed failed id none = failed
note_failed failed id (some e) = failed ++ id ∷ []

abbrev pub not_connected : Text → Error
not_connected email = formatted (codes "user %s not connected") email

module _ {S : Type 0} where
  unfoldable pub new_connection_hub : ConnectionHub S
  new_connection_hub = record { streams = []; next_id = 0 }

  -- `if _, ok := h.streams[email]; !ok { h.streams[email] = make(…) }`
  unfoldable pub open_row : Text → List (Text × Conns S) → List (Text × Conns S)
  open_row email streams = elim (lookup text_discrete email streams) [
    | none ↦ insert text_discrete email [] streams
    | some _ ↦ streams
  ]

  -- `h.streams[email][id] = s`, where the row is open
  unfoldable pub put : Text → ℕ → S → List (Text × Conns S) → List (Text × Conns S)
  put email id s streams = elim (lookup text_discrete email streams) [
    | none ↦ streams
    | some conns ↦ insert text_discrete email (insert ℕ_discrete id s conns) streams
  ]

  unfoldable pub register : Text → S → ConnectionHub S → ConnectionHub S × ℕ
  register email s h =
      let id = (h.next_id + 1) % int64_mod in
      (record { streams = put email id s (open_row email h.streams); next_id = id }, id)

  -- `if len(conns) == 0 { delete(h.streams, email) }`, after the deletion from `conns`
  unfoldable pub close_row : Text → Conns S → List (Text × Conns S) → List (Text × Conns S)
  close_row email conns streams =
      if length conns == 0
      then erase text_discrete email streams
      else insert text_discrete email conns streams

  unfoldable pub unregister : Text → ℕ → ConnectionHub S → ConnectionHub S
  unregister email id h = elim (lookup text_discrete email h.streams) [
    | none ↦ h
    | some conns ↦ record h { streams = close_row email (erase ℕ_discrete id conns) h.streams }
  ]

  unfoldable pub unregister_all : Text → List ℕ → ConnectionHub S → ConnectionHub S
  unregister_all email [] h = h
  unregister_all email (id ∷ ids) h = unregister_all email ids (unregister email id h)

  module _ {W : Type 0} (net : StreamSender S W) where
    -- The loop over the connections, with `firstErr` and `failedIDs`.
    unfoldable pub send_each :
        Conns S → ChatStreamResponse → Option Error → List ℕ → W → Option Error × List ℕ × W
    send_each [] resp first failed w = (first, failed, w)
    send_each ((id, st) ∷ conns) resp first failed w =
        let (err, w') = net.send st resp w in
        send_each conns resp (first_error first err) (note_failed failed id err) w'

    -- What is done with the row once the read lock is released.
    unfoldable pub send_to_conns :
        Text
        → ChatStreamResponse
        → Conns S
        → ConnectionHub S
        → W
        → Option Error × ConnectionHub S × W
    send_to_conns email resp conns h w =
        let (first, failed, w') = send_each conns resp none [] w in
        (first, unregister_all email failed h, w')

    -- `order` is the order in which `range` visits a map.
    unfoldable pub send_to_user :
        (Conns S → Conns S)
        → Text
        → ChatStreamResponse
        → ConnectionHub S
        → W
        → Option Error × ConnectionHub S × W
    send_to_user order email resp h w = elim (lookup text_discrete email h.streams) [
      | none ↦ (some (not_connected email), h, w)
      | some conns ↦
          if length conns == 0
          then (some (not_connected email), h, w)
          else send_to_conns email resp (order conns) h w
    ]

  -- The row of a user, empty if there is none.
  abbrev pub row : Text → List (Text × Conns S) → Conns S
  row email streams = elim (lookup text_discrete email streams) [ none ↦ [] | some conns ↦ conns ]

  -- The stream that `id` names under `email`.
  unfoldable pub conn : Text → ℕ → ConnectionHub S → Option S
  conn email id h = lookup ℕ_discrete id (row email h.streams)
