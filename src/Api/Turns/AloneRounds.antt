-- ===== src/Api/Turns/AloneRounds.antt =====
-- A round of a handler that takes its turns alone.
use rea_time_chat_g_rpc.Api.Handlers.Accounts.{fail_with}
use rea_time_chat_g_rpc.Errors.{internal, not_found}
use rea_time_chat_g_rpc.Base.{
  codes, ℕ, ◌≡◌, ◌∙◌, refl, subst, ap, inl, inr, none, some, Option, arith, Text, ℕ_discrete,
  Option-cases, Ranges,
}
use rea_time_chat_g_rpc.Errors.{Error, Status}
use rea_time_chat_g_rpc.Hub.{Conns, ConnectionHub}
use rea_time_chat_g_rpc.Hub.Shared.{Shared}
use rea_time_chat_g_rpc.Hub.Shared.Rows.{Same}
use rea_time_chat_g_rpc.Api.Stores.{UsersStore, MessagesStore}
use rea_time_chat_g_rpc.Api.Turns.State.{
  Phase, receiving, checking, saving, acking, leaving, Handler, Turns, moved, after_save, saved,
  after_check, after_ack,
}
use rea_time_chat_g_rpc.Api.Turns.{IsAt, receives, checks, saves, acked}
use rea_time_chat_g_rpc.Api.Turns.Own.{OwnStep, turns, rests}
use rea_time_chat_g_rpc.Base.{ok, err, Result-cases, true, false, Result, Bool}
use rea_time_chat_g_rpc.Hub.{send_to_user}
use rea_time_chat_g_rpc.Data.Models.{Message}
use rea_time_chat_g_rpc.Api.Html.{escape_string}
use rea_time_chat_g_rpc.Api.Requests.{ChatStreamRequest}
use rea_time_chat_g_rpc.Api.Handlers.Chat.{ack, deliver, acknowledge, serve}
use rea_time_chat_g_rpc.Api.Turns.AloneMoves.{fated, Comes, moves}
use rea_time_chat_g_rpc.Api.Turns.AloneDelivers.{delivers_alone}

-- Where the handler goes on after a round
abbrev pub resumes : {S : Type 0} → Option Status → Phase S
resumes none = receiving
resumes (some status) = leaving

module _ {S W : Type 0} (hex : ℕ → Text) (users : UsersStore W) (msgs : MessagesStore W)
    (fate : S → Option Error) (order : Conns S → Conns S) (visits : Ranges ℕ_discrete order) where
  module _ (st : Turns S W) (i : ℕ) (x : Handler S) where
    -- Where a round leaves the handler, and what hub and world
    abbrev pub Leaves : Option Status × Option (ConnectionHub S) × W → Type 0
    Leaves out =
        (hub : Shared S) × (g : ConnectionHub S) × Comes hex users msgs fate st i x (resumes out.0)
          hub out.2
        × (out.1 ≡ some g)
        × Same hub g

    acknowledges_alone :
        (to : Text) (m : Message) (hub : Shared S) (g : ConnectionHub S) (w : W)
        → Same hub g
        → Comes hex users msgs fate st i x (acking to (ack hex m)) hub w
        → Leaves (acknowledge hex users msgs (fated fate) order x.session.stream to m (some g) w)
    unfolding acknowledge deliver
    acknowledges_alone to m hub g w same c =
        let resp = ack hex m in
        let s = x.session.stream in
        let y : Handler S = record x { phase = acking to resp } in
        let told =
          moves hex users msgs fate (after_ack to resp (fate s)) c
            (acked i y to resp (fate s) (c.there, refl), refl) in
        elim (Option-cases (fate s)) [
          | inl e ↦
              let (hub', back, same') =
                delivers_alone hex users msgs fate order visits to resp g same (
                  subst (λ f. Comes hex users msgs fate st i x (after_ack to resp f) hub w) e
                    told) in
              let out = send_to_user (fated fate) order to resp g w in
              let goes_on : (none, some out.1, out.2)
                  ≡ acknowledge hex users msgs (fated fate) order s to m (some g) w =
                ground arith in
              subst Leaves goes_on (hub', out.1, back, refl, same')
          | inr (f, e) ↦
              let over_ : (
                some (fail_with internal (codes "failed to send response to sender: %v") (some f)),
                some g,
                w,
              )
                  ≡ acknowledge hex users msgs (fated fate) order s to m (some g) w =
                ground arith in
              subst Leaves over_ (
                hub,
                g,
                subst (λ a. Comes hex users msgs fate st i x (after_ack to resp a) hub w) e told,
                refl,
                same,
              )
        ]

    module _ (req : ChatStreamRequest) (at now : ℕ)
        (c : Comes hex users msgs fate st i x (saving req at now) st.hub st.world) where
      -- `SaveMessage`, and whether it fails
      abbrev save : W → Result Error Message × W
      save =
          msgs.save_message x.session.claims.email req.to_email (escape_string req.content) at now

      came :
          saved hex msgs i (record x { phase = saving req at now }) req at now c.at
          ≡ after_save hex i
              (record x { phase = saving req at now })
              req.to_email
              (save st.world).0
              (record c.at { world = (save st.world).1 })
      unfolding saved
      came =
          ap
            (λ v.
              after_save hex i (record x { phase = saving req at now }) req.to_email (save v).0
                (record c.at { world = (save v).1 }))
            c.has_world

      saved_ok :
          (m : Message)
          → (save st.world).0 ≡ ok m
          → Comes hex users msgs fate st i x
              (acking req.to_email (ack hex m))
              st.hub
              (save st.world).1
      unfolding after_save moved
      saved_ok m e = record {
        at = saved hex msgs i (record x { phase = saving req at now }) req at now c.at;
        way =
            turns c.way
              (saves i (record x { phase = saving req at now }) req at now (c.there, refl), refl);
        there = ground (arith, came);
        has_hub = ground (arith, came, c.has_hub);
        has_world = ground (arith, came);
      }

      saved_err :
          (f : Error)
          → (save st.world).0 ≡ err f
          → Comes hex users msgs fate st i x leaving st.hub (save st.world).1
      unfolding after_save moved
      saved_err f e = record {
        at = saved hex msgs i (record x { phase = saving req at now }) req at now c.at;
        way =
            turns c.way
              (saves i (record x { phase = saving req at now }) req at now (c.there, refl), refl);
        there = ground (arith, came);
        has_hub = ground (arith, came, c.has_hub);
        has_world = ground (arith, came);
      }

    -- Up to the answer of `UserExists`
    checks_alone :
        (req : ChatStreamRequest) (at now : ℕ)
        → IsAt i x receiving st
        → Comes hex users msgs fate st i x
            (after_check req at now (users.user_exists req.to_email st.world))
            st.hub
            st.world
    checks_alone req at now (there, phase) =
        let same : x ≡ record x { phase = receiving } = ap (λ p. record x { phase = p }) phase in
        let begins : Comes hex users msgs fate st i x receiving st.hub st.world = record {
          at = st;
          way = rests;
          there = there ∙ ap some same;
          has_hub = refl;
          has_world = refl;
        } in
        let got =
          moves hex users msgs fate (checking req at now) begins
            (receives i (record x { phase = receiving }) req at now (begins.there, refl), refl) in
        let y : Handler S = record x { phase = checking req at now } in
        let told : OwnStep hex users msgs i got.at (
            moved i y (after_check req at now (users.user_exists req.to_email got.at.world))
              got.at) =
          (checks i y req at now (got.there, refl), refl) in
        moves hex users msgs fate (after_check req at now (users.user_exists req.to_email st.world))
          got
          (subst
            (λ w.
              OwnStep hex users msgs i got.at
                (moved i y (after_check req at now (users.user_exists req.to_email w)) got.at))
            got.has_world told)

    -- One round
    pub round_alone :
        (req : ChatStreamRequest) (at now : ℕ) (g : ConnectionHub S)
        → IsAt i x receiving st
        → Same st.hub g
        → Leaves (
            serve hex users msgs
              (fated fate)
              order
              x.session.claims
              x.session.stream
              req
              at
              now
              (some g)
              st.world)
    unfolding serve
    round_alone req at now g free same =
        let out =
          serve hex users msgs (fated fate) order x.session.claims x.session.stream req at now
            (some g) st.world in
        let told = checks_alone req at now free in
        let To : Result Error Bool → Type 0 =
          λ r. Comes hex users msgs fate st i x (after_check req at now r) st.hub st.world in
        let w = st.world in
        elim (Result-cases (users.user_exists req.to_email w)) [
          | inr (f, e) ↦
              let eq : (
                some (fail_with internal (codes "failed to verify recipient: %v") (some f)),
                some g,
                w,
              )
                  ≡ out =
                ground arith in
              subst Leaves eq (st.hub, g, subst To e told, refl, same)
          | inl (false, e) ↦
              let eq : (some (fail_with not_found (codes "recipient not found") none), some g, w)
                  ≡ out =
                ground arith in
              subst Leaves eq (st.hub, g, subst To e told, refl, same)
          | inl (true, e) ↦
              let c = subst To e told in
              let saved_to = save req at now c w in
              elim (Result-cases saved_to.0) [
                | inr (f, d) ↦
                    let eq : (
                      some (fail_with internal (codes "failed to save message: %v") (some f)),
                      some g,
                      saved_to.1,
                    )
                        ≡ out =
                      ground arith in
                    subst Leaves eq (st.hub, g, saved_err req at now c f d, refl, same)
                | inl (m, d) ↦
                    let eq : acknowledge hex users msgs (fated fate) order x.session.stream
                          req.to_email m (some g) saved_to.1
                        ≡ out =
                      ground arith in
                    subst Leaves eq (
                      acknowledges_alone req.to_email m st.hub g saved_to.1 same
                        (saved_ok req at now c m d))
              ]
        ]
