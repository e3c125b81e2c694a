-- ===== src/Hub/Worlds.antt =====
-- What the hub leaves as it is in the world of the streams.
use rea_time_chat_g_rpc.Base.{
  ℕ, ◌≡◌, refl, inl, inr, Option, List, [], ◌∷◌, arith, Text, text_discrete, lookup, Option-cases,
}
use rea_time_chat_g_rpc.Errors.{Error}
use rea_time_chat_g_rpc.Wire.{ChatStreamResponse, StreamSender}
use rea_time_chat_g_rpc.Hub.{
  Conns, ConnectionHub, first_error, note_failed, send_each, send_to_conns, send_to_user,
}

module _ {A S W : Type 0} (net : StreamSender S W) (view : W → A)
    (keeps : (s : S) (resp : ChatStreamResponse) (w : W)
      → view (net.send s resp w).1 ≡ view w) where
  send_each-keeps :
      (conns : Conns S) (resp : ChatStreamResponse) (first : Option Error) (failed : List ℕ) (w : W)
      → view (send_each net conns resp first failed w).2 ≡ view w
  unfolding send_each
  send_each-keeps [] resp first failed w = refl
  send_each-keeps ((id, s) ∷ conns) resp first failed w =
      let (err, w') = net.send s resp w in
      ground (
        arith,
        send_each-keeps conns resp (first_error first err) (note_failed failed id err) w',
        keeps s resp w,
      )

  -- What no `Send` changes, `SendToUser` does not change.
  pub send_to_user-keeps :
      (order : Conns S → Conns S) (email : Text) (resp : ChatStreamResponse) (h : ConnectionHub S)
      (w : W)
      → view (send_to_user net order email resp h w).2 ≡ view w
  unfolding send_to_user send_to_conns
  send_to_user-keeps order email resp h w =
      elim (Option-cases (lookup text_discrete email h.streams)) [
        | inl e ↦ ground arith
        | inr (conns, e) ↦ ground (arith, send_each-keeps (order conns) resp Option.none [] w)
      ]
