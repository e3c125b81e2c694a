-- ===== src/Api/Turns/AloneDelivers.antt =====
-- `SendToUser` by a handler that takes its turns alone.
use rea_time_chat_g_rpc.Base.{
  ℕ, ◌≡◌, ◌≢◌, ◌∙◌, ◌⊎◌, refl, sym, subst, ap, inl, inr, none, some, Option, [], ◌∷◌, arith, Text,
  text_discrete, ℕ_discrete, lookup, Option-cases, Has, All, UniqueKeys, Ranges,
}
use rea_time_chat_g_rpc.Errors.{Error}
use rea_time_chat_g_rpc.Wire.{ChatStreamResponse, StreamSender}
use rea_time_chat_g_rpc.Hub.{Conns, ConnectionHub, send_each}
use rea_time_chat_g_rpc.Hub.Shared.{Shared}
use rea_time_chat_g_rpc.Hub.Shared.Rows.{Same, unregister_all_at, unregister_all-Same}
use rea_time_chat_g_rpc.Api.Stores.{UsersStore, MessagesStore}
use rea_time_chat_g_rpc.Api.Turns.State.{
  Delivery, Phase, receiving, calling, ranging, Handler, Turns, moved, after_look, over,
}
use rea_time_chat_g_rpc.Api.Turns.{looks}
use rea_time_chat_g_rpc.Api.Turns.Own.{OwnStep}
use rea_time_chat_g_rpc.Base.{map, All-map, All-of_Has}
use rea_time_chat_g_rpc.Hub.{row, send_to_user, send_to_conns}
use rea_time_chat_g_rpc.Hub.Delivery.{send_to_user-row}
use rea_time_chat_g_rpc.Hub.Shared.{row_at}
use rea_time_chat_g_rpc.Api.Turns.AloneMoves.{
  fated, seen, Unseen, Has-seen, send_each-world, Comes, clears_all, moves, ranges, stopped,
}

-- The loop of `SendToUser` before its first round
abbrev start : {S : Type 0} → Text → ChatStreamResponse → ℕ → Conns S → Delivery
start to resp a conns = record {
  to = to;
  resp = resp;
  row = a;
  at_first = map (λ k. k.0) conns;
  visited = [];
  failed = [];
}

over-start :
    {S : Type 0} (to : Text) (resp : ChatStreamResponse) (a : ℕ) (conns : Conns S)
    → conns ≢ []
    → over to resp a conns ≡ ranging (start to resp a conns)
over-start to resp a [] full = absurd (full refl)
over-start to resp a (c ∷ cs) full = refl

after_look-row :
    {S : Type 0} (to : Text) (resp : ChatStreamResponse) (h : Shared S)
    → ((row_at to h ≡ []) × (after_look {S = S} to resp h ≡ receiving))
      ⊎ ((a : ℕ) × (h.heap a ≡ row_at to h) × (after_look to resp h ≡ over to resp a (row_at to h)))
unfolding after_look row_at
after_look-row to resp h = elim (Option-cases (lookup text_discrete to h.rows)) [
  | inl e ↦ inl (ground arith, ground arith)
  | inr (a, e) ↦ inr (a, ground arith, ground arith)
]

lookup-entries :
    {S : Type 0} (conns : Conns S)
    → UniqueKeys ℕ_discrete conns
    → All (λ c. lookup ℕ_discrete c.0 conns ≡ some c.1) conns
unfolding lookup
lookup-entries [] u = tt
lookup-entries {S} ((id, s) ∷ conns) (free, u) = (
  ground arith,
  All-map (λ (c : ℕ × S). lookup ℕ_discrete c.0 conns ≡ some c.1)
      (λ (c : ℕ × S). lookup ℕ_discrete c.0 ((id, s) ∷ conns) ≡ some c.1) conns
      (λ c found. let other : id ≢ c.0 = λ e. ground arith in ground arith)
      (lookup-entries conns u),
)

module _ {S W : Type 0} (hex : ℕ → Text) (users : UsersStore W) (msgs : MessagesStore W)
    (fate : S → Option Error) (order : Conns S → Conns S) (visits : Ranges ℕ_discrete order) where
  abbrev pub net : StreamSender S W
  net = fated fate

  module _ {st : Turns S W} {i : ℕ} {x : Handler S} {hub : Shared S} {w : W} (to : Text)
      (resp : ChatStreamResponse) where
    -- The loop of `SendToUser` over a map
    loop_alone :
        (a : ℕ) (conns : Conns S)
        → hub.heap a ≡ conns
        → UniqueKeys ℕ_discrete conns
        → Comes hex users msgs fate st i x (ranging (start to resp a conns)) hub w
        → Comes hex users msgs fate st i x receiving
            (unregister_all_at to (send_each net (order conns) resp none [] w).1 hub)
            w
    loop_alone a conns at_a u c =
        let (keys, same) = visits conns u in
        let d = start to resp a conns in
        let found : (id : ℕ)
            → lookup ℕ_discrete id (order conns) ≡ lookup ℕ_discrete id (hub.heap a) =
          λ id. same id ∙ ap (lookup ℕ_discrete id) (sym at_a) in
        let ran =
          ranges hex users msgs fate (order conns) d none c
            (All-map (λ (k : ℕ × S). lookup ℕ_discrete k.0 (order conns) ≡ some k.1) (Unseen hub d)
              (order conns) (λ k there. (sym (found k.0) ∙ there, λ m. m))
              (lookup-entries (order conns) keys))
            keys in
        let failed = (send_each net (order conns) resp none [] w).1 in
        clears_all hex users msgs fate to failed hub (
          stopped hex users msgs fate
            (record d { visited = seen (order conns) []; failed = failed }) ran
            (All-of_Has
              (λ id. lookup ℕ_discrete id (hub.heap a) ≢ none → Has id (seen (order conns) []))
              d.at_first
              (λ id m there. Has-seen id (order conns) [] (λ gone. there (sym (found id) ∙ gone)))))

    looks_alone :
        (q : Phase S)
        → Comes hex users msgs fate st i x (calling to resp) hub w
        → after_look to resp hub ≡ q
        → Comes hex users msgs fate st i x q hub w
    looks_alone q c e =
        let y : Handler S = record x { phase = calling to resp } in
        moves hex users msgs fate q c (
          subst (λ p. OwnStep hex users msgs i c.at (moved i y p c.at))
            (ap (after_look to resp) c.has_hub ∙ e) (looks i y to resp (c.there, refl), refl))

    -- `SendToUser`, in turns
    pub delivers_alone :
        (g : ConnectionHub S)
        → Same hub g
        → Comes hex users msgs fate st i x (calling to resp) hub w
        → let (_, g', w') = send_to_user net order to resp g w in
          (hub' : Shared S) × Comes hex users msgs fate st i x receiving hub' w' × Same hub' g'
    unfolding send_to_conns
    delivers_alone g same c =
        let Ends : Option Error × ConnectionHub S × W → Type 0 = λ out.
          (hub' : Shared S) × Comes hex users msgs fate st i x receiving hub' out.2
          × Same hub' out.1 in
        elim (send_to_user-row net order to resp g w same.inv) [
          | inl (empty, e) ↦
              let waits : after_look to resp hub ≡ receiving = elim (after_look-row to resp hub) [
                | inl (_, r) ↦ r
                | inr (a, _, r) ↦ r ∙ ap (over to resp a) (same.rows to ∙ empty)
              ] in
              subst Ends (sym e) (hub, looks_alone receiving c waits, same)
          | inr (full, e) ↦ elim (after_look-row to resp hub) [
            | inl (empty, _) ↦ absurd (full (sym (same.rows to) ∙ empty))
            | inr (a, at_a, r) ↦
                let conns = row to g.streams in
                let failed = (send_each net (order conns) resp none [] w).1 in
                let goes =
                  r ∙ ap (over to resp a) (same.rows to) ∙ over-start to resp a conns full in
                let back =
                  loop_alone a conns (at_a ∙ same.rows to) (same.inv.distinct to)
                    (looks_alone (ranging (start to resp a conns)) c goes) in
                subst Ends (sym e) (
                  unregister_all_at to failed hub,
                  subst
                      (Comes hex users msgs fate st i x receiving (unregister_all_at to failed hub))
                      (sym (send_each-world hex users msgs fate w (order conns) resp none [])) back,
                  unregister_all-Same to failed hub g same,
                )
          ]
        ]
