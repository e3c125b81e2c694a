-- ===== src/Api/Turns/Overlap.antt =====
-- Two goroutines in `Send` on one stream.
use rea_time_chat_g_rpc.Base.{
  ℕ, ◌≡◌, ◌≢◌, ◌∙◌, refl, sym, subst, none, some, [], ◌∷◌, arith, Text, text_discrete, ℕ_discrete,
  lookup, ok, true, ap, Has, Result,
}
use rea_time_chat_g_rpc.Errors.{Error}
use rea_time_chat_g_rpc.Wire.{ChatStreamResponse}
use rea_time_chat_g_rpc.Hub.{Conns}
use rea_time_chat_g_rpc.Hub.Shared.{Shared}
use rea_time_chat_g_rpc.Data.Models.{Message}
use rea_time_chat_g_rpc.Api.Html.{escape_string}
use rea_time_chat_g_rpc.Api.Stores.{UsersStore, MessagesStore}
use rea_time_chat_g_rpc.Api.Requests.{ChatStreamRequest}
use rea_time_chat_g_rpc.Api.Handlers.Chat.{ack}
use rea_time_chat_g_rpc.Api.Turns.State.{
  Delivery, Phase, receiving, checking, saving, acking, calling, ranging, sending, Handler, Turns,
  moved, after_save, saved, after_check, after_look, over, picked,
}
use rea_time_chat_g_rpc.Api.Turns.{
  IsAt, Step, receives, checks, saves, acked, looks, picks, Reach, here, next,
}

module _ {S W : Type 0} (users : UsersStore W) (msgs : MessagesStore W) where
  -- The saving of the message of a handler
  abbrev pub save : Handler S → ChatStreamRequest → ℕ → ℕ → W → Result Error Message × W
  save x req at now =
      msgs.save_message x.session.claims.email req.to_email (escape_string req.content) at now

  -- In this world the recipient of the message exists, and the message is saved.
  abbrev pub IsTaken : Handler S → ChatStreamRequest → ℕ → ℕ → W → Type 0
  IsTaken x req at now w =
      (users.user_exists req.to_email w ≡ ok true)
      × ((m : Message) × ((save x req at now w).0 ≡ ok m))

module _ {S W : Type 0} (hex : ℕ → Text) (users : UsersStore W) (msgs : MessagesStore W) where
  Reach-trans :
      {st k l : Turns S W}
      → Reach hex users msgs st k
      → Reach hex users msgs k l
      → Reach hex users msgs st l
  Reach-trans r here = r
  Reach-trans r (next q step) = next (Reach-trans r q) step

  -- The handler has come to a phase, while the hub and the other handlers stayed as they were; the world is
  -- now this one.
  record Came (st : Turns S W) (i : ℕ) (x : Handler S) (p : Phase S) (w : W) (k : Turns S W)
      : Type 0 where
    way : Reach hex users msgs st k
    there : k.handlers i ≡ some (record x { phase = p })
    hub : k.hub ≡ st.hub
    world : k.world ≡ w
    others : (j : ℕ) → i ≢ j → k.handlers j ≡ st.handlers j

  moved-Came :
      {st k : Turns S W} {i : ℕ} {x : Handler S} {p : Phase S} {w : W} (q : Phase S)
      → Came st i x p w k
      → Step hex users msgs k (moved i (record x { phase = p }) q k)
      → Came st i x q w (moved i (record x { phase = p }) q k)
  unfolding moved
  moved-Came q c step = record {
    way = next c.way step;
    there = ground arith;
    hub = c.hub;
    world = c.world;
    others = λ j n. ground (arith, c.others j n);
  }

  saved-Came :
      {st k : Turns S W} {i : ℕ} {x : Handler S} {w : W} (req : ChatStreamRequest) (at now : ℕ)
      (m : Message)
      → (save users msgs x req at now w).0 ≡ ok m
      → Came st i x (saving req at now) w k
      → (l : Turns S W) × Came st i x
          (acking req.to_email (ack hex m))
          (save users msgs x req at now w).1
          l
  unfolding saved after_save moved
  saved-Came {st} {k} {i} {x} {w} req at now m e c =
      let y : Handler S = record x { phase = saving req at now } in
      let kept : save users msgs x req at now k.world ≡ save users msgs x req at now w =
        ap (save users msgs x req at now) c.world in
      let done : (save users msgs x req at now k.world).0 ≡ ok m = ap (λ r. r.0) kept ∙ e in
      (
        saved hex msgs i y req at now k,
        record {
          way = next c.way (saves i y req at now (c.there, refl));
          there = ground (arith, done);
          hub = ground (arith, done, c.hub);
          world = ground (arith, done, ap (λ r. r.1) kept);
          others = λ j n. ground (arith, done, c.others j n);
        },
      )

  -- The first part of a round
  acks_up :
      (st : Turns S W) (i : ℕ) (x : Handler S) (req : ChatStreamRequest) (at now : ℕ) (w : W)
      → st.world ≡ w
      → IsTaken users msgs x req at now w
      → IsAt i x receiving st
      → (resp : ChatStreamResponse) × (l : Turns S W) × Came st i x
          (acking req.to_email resp)
          (save users msgs x req at now w).1
          l
  acks_up st i x req at now w in_world (exists_, (m, takes)) (there, phase) =
      let same : x ≡ record x { phase = receiving } = ap (λ p. record x { phase = p }) phase in
      let start : Came st i x receiving w st = record {
        way = here;
        there = there ∙ ap some same;
        hub = refl;
        world = in_world;
        others = λ j n. refl;
      } in
      let got =
        moved-Came (checking req at now) start
          (receives i (record x { phase = receiving }) req at now (start.there, refl)) in
      let y : Handler S = record x { phase = checking req at now } in
      let k = moved i (record x { phase = receiving }) (checking req at now) st in
      let found : users.user_exists req.to_email k.world ≡ ok true =
        ap (users.user_exists req.to_email) got.world ∙ exists_ in
      let (l, c) = saved-Came req at now m takes (
        moved-Came (saving req at now) got (
          subst (λ r. Step hex users msgs k (moved i y (after_check req at now r) k)) found
            (checks i y req at now (got.there, refl)))) in
      (ack hex m, l, c)

  over-ranging :
      (to : Text) (resp : ChatStreamResponse) (row id : ℕ) (s : S) (conns : Conns S)
      → lookup ℕ_discrete id conns ≡ some s
      → (d : Delivery) × (over to resp row conns ≡ ranging d)
        × (d.to ≡ to)
        × (d.row ≡ row)
        × (d.visited ≡ [])
  unfolding lookup
  over-ranging to resp row id s [] found = absurd (cc)
  over-ranging to resp row id s (c ∷ cs) found = (_, refl, refl, refl, refl)

  after_look-found :
      (to : Text) (resp : ChatStreamResponse) (row : ℕ) (h : Shared S)
      → lookup text_discrete to h.rows ≡ some row
      → after_look {S = S} to resp h ≡ over to resp row (h.heap row)
  unfolding after_look
  after_look-found to resp row h owns = ground arith

  -- A round up to the loop of `SendToUser`
  ranges_up :
      (st : Turns S W) (i : ℕ) (x : Handler S) (req : ChatStreamRequest) (at now row id : ℕ) (s : S)
      → IsTaken users msgs x req at now st.world
      → IsAt i x receiving st
      → lookup text_discrete req.to_email st.hub.rows ≡ some row
      → lookup ℕ_discrete id (st.hub.heap row) ≡ some s
      → (d : Delivery) × (l : Turns S W) × Came st i x
          (ranging d)
          (save users msgs x req at now st.world).1
          l
        × (d.to ≡ req.to_email)
        × (d.row ≡ row)
        × (d.visited ≡ [])
  ranges_up st i x req at now row id s taken free owns has =
      let (resp, k, c) = acks_up st i x req at now st.world refl taken free in
      let y : Handler S = record x { phase = acking req.to_email resp } in
      let z : Handler S = record x { phase = calling req.to_email resp } in
      let l = moved i y (calling req.to_email resp) k in
      let called =
        moved-Came (calling req.to_email resp) c
          (acked i y req.to_email resp none (c.there, refl)) in
      let (d, goes, to, there, new) =
        over-ranging req.to_email resp row id s (st.hub.heap row) has in
      let looked : after_look {S = S} req.to_email resp l.hub ≡ ranging d =
        ap (after_look req.to_email resp) called.hub
        ∙ after_look-found req.to_email resp row st.hub owns
        ∙ goes in
      (
        d,
        moved i z (ranging d) l,
        moved-Came (ranging d) called (
            subst (λ p. Step hex users msgs l (moved i z p l)) looked
              (looks i z req.to_email resp (called.there, refl))),
        to,
        there,
        new,
      )

  -- From every state in which two handlers are in `Recv` and the stream of the first one is in the map of an
  -- address: if the recipient of the second one's message exists and the message is saved in the world as it
  -- is, and so are those of the first one in the world after that, there is a run to a state in which the
  -- first one is in `Send` on its stream, for an acknowledgement, and the second one in another `Send` on the
  -- same stream, for a message to the address.
  pub sends_overlap :
      (st : Turns S W) (i j : ℕ) (x y : Handler S) (mine yours : ChatStreamRequest)
      (at now row id : ℕ)
      → i ≢ j
      → IsTaken users msgs y yours at now st.world
      → IsTaken users msgs x mine at now (save users msgs y yours at now st.world).1
      → IsAt i x receiving st
      → IsAt j y receiving st
      → lookup text_discrete yours.to_email st.hub.rows ≡ some row
      → lookup ℕ_discrete id (st.hub.heap row) ≡ some x.session.stream
      → (k : Turns S W) × Reach hex users msgs st k
        × ((resp : ChatStreamResponse) × (k.handlers i
              ≡ some (record x { phase = acking mine.to_email resp })))
        × ((d : Delivery) × (d.to ≡ yours.to_email)
            × (k.handlers j ≡ some (record y { phase = sending d id x.session.stream })))
  unfolding moved picked
  sends_overlap st i j x y mine yours at now row id apart taken_j taken_i free_i free_j owns has =
      let (d, k, c, to, there, new) =
        ranges_up st j y yours at now row id x.session.stream taken_j free_j owns has in
      let waits : IsAt i x receiving k = (c.others i (λ e. apart (sym e)) ∙ free_i.0, free_i.1) in
      let (resp, l, b) =
        acks_up k i x mine at now (save users msgs y yours at now st.world).1 c.world taken_i
          waits in
      let z : Handler S = record y { phase = ranging d } in
      let ready : IsAt j z (ranging d) l = (b.others j apart ∙ c.there, refl) in
      let held : lookup ℕ_discrete id (l.hub.heap d.row) ≡ some x.session.stream =
        ap (λ h. lookup ℕ_discrete id (h.heap d.row)) (b.hub ∙ c.hub)
        ∙ ap (λ r. lookup ℕ_discrete id (st.hub.heap r)) there
        ∙ has in
      let fresh : ¬ Has id d.visited = λ m. subst (Has id) new m in
      (
        picked j z d id x.session.stream l,
        next (Reach-trans c.way b.way) (picks j z d id x.session.stream ready held fresh),
        (resp, ground (arith, b.there)),
        (d, to, ground arith),
      )
