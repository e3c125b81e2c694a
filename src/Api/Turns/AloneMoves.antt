-- ===== src/Api/Turns/AloneMoves.antt =====
-- What a handler comes to when it takes its turns alone.
use rea_time_chat_g_rpc.Base.{
  ℕ, ◌≡◌, ◌≢◌, ◌∙◌, refl, sym, subst, ap, inl, inr, none, some, Option, List, [], ◌∷◌, arith, Text,
  ℕ_discrete, lookup, Has, All, UniqueKeys,
}
use rea_time_chat_g_rpc.Errors.{Error}
use rea_time_chat_g_rpc.Wire.{ChatStreamResponse, StreamSender}
use rea_time_chat_g_rpc.Hub.{Conns, send_each, note_failed, first_error}
use rea_time_chat_g_rpc.Hub.Shared.{Shared, unregister_at}
use rea_time_chat_g_rpc.Hub.Shared.Rows.{unregister_all_at}
use rea_time_chat_g_rpc.Api.Stores.{UsersStore, MessagesStore}
use rea_time_chat_g_rpc.Api.Turns.State.{
  Delivery, Phase, receiving, ranging, sending, clearing, Handler, Turns, moved, picked, after_send,
  unregistered,
}
use rea_time_chat_g_rpc.Api.Turns.{picks, sent, stops, clears, cleared}
use rea_time_chat_g_rpc.Api.Turns.Own.{OwnStep, OwnReach, turns}

-- Each stream has its answer to every `Send`, and the world is the database.
abbrev pub fated : {S W : Type 0} → (S → Option Error) → StreamSender S W
fated fate = record { send = λ s resp w. (fate s, w) }

-- The ids that the loop has come to, after these connections
abbrev pub seen : {S : Type 0} → Conns S → List ℕ → List ℕ
seen [] visited = visited
seen ((id, s) ∷ conns) visited = seen conns (id ∷ visited)

abbrev pub Unseen : {S : Type 0} → Shared S → Delivery → ℕ × S → Type 0
Unseen h d (id, s) = (lookup ℕ_discrete id (h.heap d.row) ≡ some s) × ¬ Has id d.visited

later-Unseen :
    {S : Type 0} (h : Shared S) (d : Delivery) (id : ℕ) (failed : List ℕ) (conns : Conns S)
    → lookup ℕ_discrete id conns ≡ none
    → All (Unseen h d) conns
    → All (Unseen h (record d { visited = id ∷ d.visited; failed = failed })) conns
unfolding lookup
later-Unseen h d id failed [] free u = tt
later-Unseen h d id failed ((k, s) ∷ conns) free ((found, fresh), u) =
    let other : id ≢ k = λ e. ground arith in
    (
      (found, λ m. elim m [ inl e ↦ other e | inr old ↦ fresh old ]),
      later-Unseen h d id failed conns (ground arith) u,
    )

seen-visited :
    {S : Type 0} (id : ℕ) (conns : Conns S) (v : List ℕ) → Has id v → Has id (seen conns v)
seen-visited id [] v m = m
seen-visited id ((k, s) ∷ conns) v m = seen-visited id conns (k ∷ v) (inr m)

pub Has-seen :
    {S : Type 0} (id : ℕ) (conns : Conns S) (v : List ℕ)
    → lookup ℕ_discrete id conns ≢ none
    → Has id (seen conns v)
unfolding lookup
Has-seen id [] v there = absurd (there refl)
Has-seen id ((k, s) ∷ conns) v there = elim (ℕ_discrete id k) [
  | yes e ↦ seen-visited id conns (k ∷ v) (inl (sym e))
  | no n ↦ Has-seen id conns (k ∷ v) (λ gone. there (ground arith))
]

module _ {S W : Type 0} (hex : ℕ → Text) (users : UsersStore W) (msgs : MessagesStore W)
    (fate : S → Option Error) where
  pub send_each-world :
      (w : W) (conns : Conns S) (resp : ChatStreamResponse) (first : Option Error) (failed : List ℕ)
      → (send_each (fated {W = W} fate) conns resp first failed w).2 ≡ w
  unfolding send_each
  send_each-world w [] resp first failed = refl
  send_each-world w ((id, s) ∷ conns) resp first failed =
      send_each-world w conns resp (first_error first (fate s)) (note_failed failed id (fate s))

  -- By its own turns the handler can come to a phase, with this hub and this world.
  pub record Comes (st : Turns S W) (i : ℕ) (x : Handler S) (p : Phase S) (hub : Shared S) (w : W)
      : Type 0 where
    pub at : Turns S W
    pub way : OwnReach hex users msgs i st at
    pub there : at.handlers i ≡ some (record x { phase = p })
    pub has_hub : at.hub ≡ hub
    pub has_world : at.world ≡ w

  module _ {st : Turns S W} {i : ℕ} {x : Handler S} {hub : Shared S} {w : W} where
    pub moves :
        {p : Phase S} (q : Phase S) (c : Comes st i x p hub w)
        → OwnStep hex users msgs i c.at (moved i (record x { phase = p }) q c.at)
        → Comes st i x q hub w
    unfolding moved
    moves {p} q c step = record {
      at = moved i (record x { phase = p }) q c.at;
      way = turns c.way step;
      there = ground arith;
      has_hub = c.has_hub;
      has_world = c.has_world;
    }

    -- A `Send` of the loop
    sends :
        (d : Delivery) (id : ℕ) (s : S)
        → Comes st i x (ranging d) hub w
        → lookup ℕ_discrete id (hub.heap d.row) ≡ some s
        → ¬ Has id d.visited
        → Comes st i x (after_send d id (fate s)) hub w
    unfolding picked moved
    sends d id s c found fresh =
        let y : Handler S = record x { phase = ranging d } in
        let held : lookup ℕ_discrete id (c.at.hub.heap d.row) ≡ some s =
          ap (λ h. lookup ℕ_discrete id (h.heap d.row)) c.has_hub ∙ found in
        let started : Comes st i x (sending d id s) hub w = record {
          at = picked i y d id s c.at;
          way = turns c.way (picks i y d id s (c.there, refl) held fresh, refl);
          there = ground arith;
          has_hub = c.has_hub;
          has_world = c.has_world;
        } in
        moves (after_send d id (fate s)) started
          (sent i (record x { phase = sending d id s }) d id s (fate s) (started.there, refl), refl)

    -- The loop over these connections
    pub ranges :
        (conns : Conns S) (d : Delivery) (first : Option Error)
        → Comes st i x (ranging d) hub w
        → All (Unseen hub d) conns
        → UniqueKeys ℕ_discrete conns
        → let out = send_each (fated {W = W} fate) conns d.resp first d.failed w in
          Comes st i x (ranging (record d { visited = seen conns d.visited; failed = out.1 })) hub w
    unfolding send_each
    ranges [] d first c u keys = c
    ranges ((id, s) ∷ conns) d first c ((found, fresh), u) (free, keys) =
        let failed = note_failed d.failed id (fate s) in
        ranges conns (record d { visited = id ∷ d.visited; failed = failed })
          (first_error first (fate s)) (sends d id s c found fresh)
          (later-Unseen hub d id failed conns free u) keys

    pub stopped :
        (d : Delivery)
        → Comes st i x (ranging d) hub w
        → All (λ id. lookup ℕ_discrete id (hub.heap d.row) ≢ none → Has id d.visited) d.at_first
        → Comes st i x (clearing d.to d.failed) hub w
    stopped d c done = moves (clearing d.to d.failed) c (
      stops i (record x { phase = ranging d }) d (c.there, refl)
          (subst
            (λ h.
              All (λ id. lookup ℕ_discrete id (h.heap d.row) ≢ none → Has id d.visited) d.at_first)
            (sym c.has_hub) done),
      refl,
    )

  pub clears_all :
      {st : Turns S W} {i : ℕ} {x : Handler S} {w : W} (to : Text) (ids : List ℕ) (hub : Shared S)
      → Comes st i x (clearing to ids) hub w
      → Comes st i x receiving (unregister_all_at to ids hub) w
  unfolding unregister_all_at unregistered moved
  clears_all {st} {i} {x} to [] hub c =
      moves receiving c (cleared i (record x { phase = clearing to [] }) to (c.there, refl), refl)
  clears_all {st} {i} {x} {w} to (id ∷ ids) hub c =
      let y : Handler S = record x { phase = clearing to (id ∷ ids) } in
      clears_all to ids (unregister_at to id hub) (record {
        at = moved i y (clearing to ids) (unregistered to id c.at);
        way = turns c.way (clears i y to id ids (c.there, refl), refl);
        there = ground arith;
        has_hub = ap (unregister_at to id) c.has_hub;
        has_world = c.has_world;
      })
