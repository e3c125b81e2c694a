-- ===== src/Hub/Histories.antt =====
-- The hub through a history of calls, against a specification of one connection.
use rea_time_chat_g_rpc.Base.{
  ℕ, ◌+◌, ◌<◌, ◌≡◌, refl, inl, inr, Bool, Option, none, some, List, [], ◌∷◌, ◌++◌, arith, ite, Text,
  text_discrete, ℕ_discrete, length,
}
use rea_time_chat_g_rpc.Wire.{ChatStreamResponse, StreamSender}
use rea_time_chat_g_rpc.Hub.{
  Conns, ConnectionHub, int64_mod, register, unregister, unregister_all, send_to_user,
  send_to_conns, conn,
}
use rea_time_chat_g_rpc.Hub.Routing.{conn-register, conn-unregister}
use rea_time_chat_g_rpc.Hub.Invariant.{
  Inv, register-Inv, unregister-Inv, next_id-register, next_id-unregister,
}
use rea_time_chat_g_rpc.Hub.Delivery.{
  Visits, Fates, survivor, send_to_user-row, send_to_user-Inv, conn-send_to_user,
}

-- A call of one of the methods of the hub.
pub data Action (S : Type 0) : Type 0 where
  registers : Text → S → Action S
  unregisters : Text → ℕ → Action S
  sends : Text → ChatStreamResponse → Action S

module _ {S W : Type 0} (net : StreamSender S W) (order : Conns S → Conns S) where
  -- The hub and the world after the calls, in their order.
  unfoldable pub run : List (Action S) → ConnectionHub S → W → ConnectionHub S × W
  run [] h w = (h, w)
  run (registers email s ∷ actions) h w = run actions (register email s h).0 w
  run (unregisters email id ∷ actions) h w = run actions (unregister email id h) w
  run (sends email resp ∷ actions) h w =
      let (_, h', w') = send_to_user net order email resp h w in run actions h' w'

  pub run-registers :
      (actions : List (Action S)) (email : Text) (s : S) (h : ConnectionHub S) (w : W)
      → (run (actions ++ registers email s ∷ []) h w).0 ≡ (register email s (run actions h w).0).0
  unfolding run
  run-registers [] email s h w = refl
  run-registers (registers e r ∷ actions) email s h w =
      run-registers actions email s (register e r h).0 w
  run-registers (unregisters e i ∷ actions) email s h w =
      run-registers actions email s (unregister e i h) w
  run-registers (sends e resp ∷ actions) email s h w =
      let r = send_to_user net order e resp h w in run-registers actions email s r.1 r.2

  pub run-unregisters :
      (actions : List (Action S)) (email : Text) (id : ℕ) (h : ConnectionHub S) (w : W)
      → (run (actions ++ unregisters email id ∷ []) h w).0 ≡ unregister email id (run actions h w).0
  unfolding run
  run-unregisters [] email id h w = refl
  run-unregisters (registers e r ∷ actions) email id h w =
      run-unregisters actions email id (register e r h).0 w
  run-unregisters (unregisters e i ∷ actions) email id h w =
      run-unregisters actions email id (unregister e i h) w
  run-unregisters (sends e resp ∷ actions) email id h w =
      let r = send_to_user net order e resp h w in run-unregisters actions email id r.1 r.2

module _ {S : Type 0} (broken : S → Bool) where
  -- What becomes of the connection `id` of `email`: it is the stream that was registered as the `id`th, until
  -- it is unregistered or, being broken, is sent something.
  unfoldable pub fate : Text → ℕ → List (Action S) → ℕ → Option S → Option S
  fate email id [] issued o = o
  fate email id (registers e s ∷ actions) issued o =
      fate email id actions (issued + 1)
        (ite (text_discrete e email) (ite (ℕ_discrete (issued + 1) id) (some s) o) o)
  fate email id (unregisters e i ∷ actions) issued o =
      fate email id actions issued (ite (text_discrete e email) (ite (ℕ_discrete i id) none o) o)
  fate email id (sends e resp ∷ actions) issued o =
      fate email id actions issued (ite (text_discrete e email) (survivor broken o) o)

next_id-unregister_all :
    {S : Type 0} (email : Text) (ids : List ℕ) (h : ConnectionHub S)
    → (unregister_all email ids h).next_id ≡ h.next_id
unfolding unregister_all unregister
next_id-unregister_all email [] h = refl
next_id-unregister_all email (id ∷ ids) h =
    ground (arith, next_id-unregister_all email ids (unregister email id h))

module _ {S W : Type 0} (net : StreamSender S W) (order : Conns S → Conns S) where
  pub next_id-send_to_user :
      (email : Text) (resp : ChatStreamResponse) (h : ConnectionHub S) (w : W)
      → Inv h
      → (send_to_user net order email resp h w).1.next_id ≡ h.next_id
  unfolding send_to_conns
  next_id-send_to_user email resp h w v = elim (send_to_user-row net order email resp h w v) [
    | inl (_, e) ↦ rw e refl
    | inr (_, e) ↦ rw e (next_id-unregister_all email _ h)
  ]

  module _ (broken : S → Bool) (fates : Fates net broken) (visits : Visits order) where
    -- If `Send` fails exactly on the broken streams and `range` visits each connection once: any history
    -- of calls keeps the invariant of the hub, as long as the ids issued before and the number of calls
    -- together stay below 2 ^ 64. By it no user has an empty row, every id in use has been issued, and
    -- no id serves two users or two streams.
    pub run-Inv :
        (actions : List (Action S)) (h : ConnectionHub S) (w : W)
        → Inv h
        → h.next_id + length actions < int64_mod
        → Inv (run net order actions h w).0
    unfolding run
    run-Inv [] h w v room = v
    run-Inv (registers e s ∷ actions) h w v room =
        let small : h.next_id + 1 < int64_mod = omega arith in
        let next = next_id-register e s h v small in
        run-Inv actions (register e s h).0 w (register-Inv e s h v small) (omega (arith, next))
    run-Inv (unregisters e i ∷ actions) h w v room =
        let next = next_id-unregister e i h v in
        run-Inv actions (unregister e i h) w (unregister-Inv e i h v) (omega (arith, next))
    run-Inv (sends e resp ∷ actions) h w v room =
        let r = send_to_user net order e resp h w in
        let next = next_id-send_to_user e resp h w v in
        let kept = send_to_user-Inv net broken fates resp order visits e h w v in
        run-Inv actions r.1 r.2 kept (omega (arith, next))

    -- From a hub that meets the invariant, if `Send` fails exactly on the broken streams and
    -- `range` visits each connection once: after any history of calls, a connection is what the
    -- specification of this one connection says, as long as the ids issued before and the number
    -- of calls together stay below 2 ^ 64.
    pub conn-run :
        (email : Text) (id : ℕ) (actions : List (Action S)) (h : ConnectionHub S) (w : W)
        → Inv h
        → h.next_id + length actions < int64_mod
        → conn email id (run net order actions h w).0
          ≡ fate broken email id actions h.next_id (conn email id h)
    unfolding run fate
    conn-run email id [] h w v room = refl
    conn-run email id (registers e s ∷ actions) h w v room =
        let h' = (register e s h).0 in
        let small : h.next_id + 1 < int64_mod = omega arith in
        let next = next_id-register e s h v small in
        let later =
          conn-run email id actions h' w (register-Inv e s h v small) (omega (arith, next)) in
        ground (arith, later, next, conn-register e email id s h)
    conn-run email id (unregisters e i ∷ actions) h w v room =
        let h' = unregister e i h in
        let next = next_id-unregister e i h v in
        let later = conn-run email id actions h' w (unregister-Inv e i h v) (omega (arith, next)) in
        ground (arith, later, next, conn-unregister e email i id h)
    conn-run email id (sends e resp ∷ actions) h w v room =
        let r = send_to_user net order e resp h w in
        let next = next_id-send_to_user e resp h w v in
        let kept = send_to_user-Inv net broken fates resp order visits e h w v in
        let later = conn-run email id actions r.1 r.2 kept (omega (arith, next)) in
        ground (
          arith,
          later,
          next,
          conn-send_to_user net broken fates resp order visits e email id h w v,
        )
