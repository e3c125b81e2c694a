-- ===== src/Hub/Broadcast.antt =====
-- What `SendToUser` puts on the streams.
use rea_time_chat_g_rpc.Base.{
  ℕ, suc, ◌≡◌, sym, ◌∙◌, ap, inl, inr, Bool, not, ◌&&◌, Option, none, List, [], ◌∷◌, ◌++◌,
  append_assoc, append-nil, arith, Text, count, replicate, is_yes, if◌then◌else◌,
}
use rea_time_chat_g_rpc.Errors.{Error}
use rea_time_chat_g_rpc.Wire.{ChatStreamResponse, StreamSender}
use rea_time_chat_g_rpc.Hub.{
  Conns, ConnectionHub, first_error, note_failed, send_each, send_to_conns, send_to_user, row,
}
use rea_time_chat_g_rpc.Hub.Invariant.{Inv}
use rea_time_chat_g_rpc.Hub.Delivery.{Visits, send_to_user-row}

-- What each stream has carried so far: a healthy stream carries what is sent on it, a broken one
-- does not, and no other stream is touched.
pub record Log {S W : Type 0} (net : StreamSender S W) (broken : S → Bool) : Type 0 where
  pub same : Discrete S
  pub received : W → S → List ChatStreamResponse
  pub logs :
      (s t : S) (r : ChatStreamResponse) (w : W)
      → received (net.send s r w).1 t
        ≡ (if is_yes (same s t) && not (broken s) then received w t ++ r ∷ [] else received w t)

module _ {S W : Type 0} (net : StreamSender S W) (broken : S → Bool) (log : Log net broken)
    (resp : ChatStreamResponse) where
  open log use {same, received, logs}

  -- Counts the entries through which the stream gets the response.
  abbrev pub reaches : S → ℕ × S → Bool
  reaches t (id, s) = is_yes (same s t) && not (broken s)

  append-replicate :
      (n : ℕ) (xs : List ChatStreamResponse)
      → (xs ++ resp ∷ []) ++ replicate n resp ≡ xs ++ replicate (suc n) resp
  append-replicate n xs = append_assoc xs (resp ∷ []) (replicate n resp)

  received-send_each :
      (conns : Conns S) (first : Option Error) (failed : List ℕ) (w : W) (t : S)
      → received (send_each net conns resp first failed w).2 t
        ≡ received w t ++ replicate (count (reaches t) conns) resp
  unfolding send_each
  received-send_each [] first failed w t = sym (append-nil (received w t))
  received-send_each ((id, s) ∷ conns) first failed w t =
      let r = net.send s resp w in
      ground (
        arith,
        received-send_each conns (first_error first r.0) (note_failed failed id r.0) r.1 t,
        logs s t resp w,
        append-replicate (count (reaches t) conns) (received w t),
      )

  -- For a hub that meets the invariant, if streams carry what is sent on them unless they are
  -- broken and `range` visits each connection once: `SendToUser` makes every healthy stream carry
  -- the response once for each of its connections under the address, in spite of the broken ones,
  -- and no other stream carry anything.
  pub received-send_to_user :
      (order : Conns S → Conns S)
      → Visits order
      → (email : Text) (h : ConnectionHub S) (w : W) (t : S) → Inv h
      → received (send_to_user net order email resp h w).2 t
        ≡ received w t ++ replicate (count (reaches t) (row email h.streams)) resp
  received-send_to_user order visits email h w t v =
      elim (send_to_user-row net order email resp h w v) [
        | inl (empty, e) ↦ rw (e, empty) (sym (append-nil (received w t)))
        | inr (_, e) ↦ rw e (
            unfold send_to_conns in
            received-send_each (order (row email h.streams)) none [] w t
            ∙ ap (λ n. received w t ++ replicate n resp) (visits (row email h.streams) (reaches t)))
      ]
