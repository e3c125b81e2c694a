-- ===== src/Api/Turns/Settled.antt =====
-- How the calls of `Send` in a loop of `SendToUser` have returned.
use rea_time_chat_g_rpc.Base.{
  ℕ, ◌≡◌, ◌≢◌, ◌⊎◌, refl, subst, inl, inr, Option, none, some, List, [], ◌∷◌, ◌++◌, arith, Text,
  ite, text_discrete, ℕ_discrete, lookup, update, true, false, Bool, Result, ok, err, Has,
  Has-right, All, All-map, Option-cases,
}
use rea_time_chat_g_rpc.Errors.{Error}
use rea_time_chat_g_rpc.Wire.{ChatStreamResponse}
use rea_time_chat_g_rpc.Data.Models.{Message}
use rea_time_chat_g_rpc.Hub.{Conns}
use rea_time_chat_g_rpc.Hub.Shared.{Shared}
use rea_time_chat_g_rpc.Api.Stores.{UsersStore, MessagesStore}
use rea_time_chat_g_rpc.Api.Requests.{ChatStreamRequest}
use rea_time_chat_g_rpc.Api.Turns.State.{
  Delivery, Phase, receiving, checking, ranging, sending, clearing, leaving, left, Handler, Turns,
  new_turns, moved, opened, after_check, after_save, saved, after_ack, after_look, over, after_send,
  picked, unregistered,
}
use rea_time_chat_g_rpc.Api.Turns.{
  IsAt, Step, opens, receives, ends, checks, saves, acked, looks, picks, sent, stops, clears,
  cleared, leaves, Reach, here, next,
}

module _ {S W : Type 0} (hex : ℕ → Text) (users : UsersStore W) (msgs : MessagesStore W) where
  -- The connections on which a `Send` of the loop of this handler has returned without an error, after one
  -- more step; a new call of `SendToUser` starts anew.
  unfoldable pub carried_after : ℕ → {st k : Turns S W} → Step hex users msgs st k → List ℕ → List ℕ
  carried_after i (looks j x to resp at) ids = ite (ℕ_discrete j i) [] ids
  carried_after i (sent j x d id s none at) ids = ite (ℕ_discrete j i) (id ∷ ids) ids
  carried_after i (sent j x d id s (some e) at) ids = ids
  carried_after i (opens call claims stream auth) ids = ids
  carried_after i (receives j x req at now here_) ids = ids
  carried_after i (ends j x e at last) ids = ids
  carried_after i (checks j x req at now here_) ids = ids
  carried_after i (saves j x req at now here_) ids = ids
  carried_after i (acked j x to resp e at) ids = ids
  carried_after i (picks j x d id s at found fresh) ids = ids
  carried_after i (stops j x d at all) ids = ids
  carried_after i (clears j x to id rest at) ids = ids
  carried_after i (cleared j x to at) ids = ids
  carried_after i (leaves j x at) ids = ids

  -- After a run
  unfoldable pub carried : ℕ → {st k : Turns S W} → Reach hex users msgs st k → List ℕ
  carried i here = []
  carried i (next r step) = carried_after i step (carried i r)

-- A `Send` has returned an error, or none.
abbrev pub HasReturned : List ℕ → Delivery → ℕ → Type 0
HasReturned cs d id = Has id d.failed ⊎ Has id cs

abbrev pub Settles : {S : Type 0} → List ℕ → Phase S → Type 0
Settles cs (ranging d) = All (HasReturned cs d) d.visited
Settles cs (sending d id s) = All (HasReturned cs d) d.visited
Settles cs _ = Unit

after_look-Settles :
    {S : Type 0} (cs : List ℕ) (to : Text) (resp : ChatStreamResponse) (h : Shared S)
    → Settles cs (after_look to resp h)
unfolding after_look
after_look-Settles {S} cs to resp h =
    let over-Settles : (a : ℕ) (conns : Conns S) → Settles cs (over to resp a conns) =
      λ a conns. elim conns as (λ k. Settles cs (over to resp a k)) [ [] ↦ tt | c ∷ rest ↦ tt ] in
    elim (Option-cases (lookup text_discrete to h.rows)) [
      | inl e ↦
          let waits : receiving ≡ after_look {S = S} to resp h = ground arith in
          subst (Settles cs) waits tt
      | inr (a, e) ↦
          let goes : over to resp a (h.heap a) ≡ after_look to resp h = ground arith in
          subst (Settles cs) goes (over-Settles a (h.heap a))
    ]

after_check-Settles :
    (S : Type 0) (cs : List ℕ) (req : ChatStreamRequest) (at now : ℕ) (r : Result Error Bool)
    → Settles {S = S} cs (after_check req at now r)
after_check-Settles S cs req at now (err e) = tt
after_check-Settles S cs req at now (ok false) = tt
after_check-Settles S cs req at now (ok true) = tt

after_ack-Settles :
    (S : Type 0) (cs : List ℕ) (to : Text) (resp : ChatStreamResponse) (e : Option Error)
    → Settles {S = S} cs (after_ack to resp e)
after_ack-Settles S cs to resp none = tt
after_ack-Settles S cs to resp (some e) = tt

Has-left : (a : ℕ) (xs ys : List ℕ) → Has a xs → Has a (xs ++ ys)
Has-left a [] ys h = absurd h
Has-left a (x ∷ xs) ys (inl e) = inl e
Has-left a (x ∷ xs) ys (inr h) = inr (Has-left a xs ys h)

sent-none :
    (S : Type 0) (cs : List ℕ) (d : Delivery) (id : ℕ)
    → All (HasReturned cs d) d.visited
    → Settles {S = S} (id ∷ cs) (after_send d id none)
sent-none S cs d id v = (
  inr (inl refl),
  All-map (HasReturned cs d) (HasReturned (id ∷ cs) d) d.visited
      (λ k h. elim h [ inl f ↦ inl f | inr c ↦ inr (inr c) ]) v,
)

sent-some :
    (S : Type 0) (cs : List ℕ) (d : Delivery) (id : ℕ) (e : Error)
    → All (HasReturned cs d) d.visited
    → Settles {S = S} cs (after_send d id (some e))
sent-some S cs d id e v = (
  inl (Has-right id d.failed (id ∷ []) (inl refl)),
  All-map (HasReturned cs d) (HasReturned cs (record d { failed = d.failed ++ id ∷ [] })) d.visited
      (λ k h. elim h [ inl f ↦ inl (Has-left k d.failed (id ∷ []) f) | inr c ↦ inr c ]) v,
)

module _ {S W : Type 0} (hex : ℕ → Text) (users : UsersStore W) (msgs : MessagesStore W)
    (i : ℕ) where
  abbrev IsSettled : List ℕ → (ℕ → Option (Handler S)) → Type 0
  IsSettled cs hs = (x : Handler S) → hs i ≡ some x → Settles cs x.phase

  -- Another handler, or this one, has moved to a phase.
  puts :
      (cs ds : List ℕ) (hs : ℕ → Option (Handler S)) (j : ℕ) (y : Handler S)
      → IsSettled cs hs
      → (j ≡ i → Settles ds y.phase)
      → (j ≢ i → cs ≡ ds)
      → IsSettled ds (update hs j (some y))
  puts cs ds hs j y v mine same x found = elim (ℕ_discrete j i) [
    | yes e ↦ let is_y : y ≡ x = ground arith in subst (λ z. Settles ds z.phase) is_y (mine e)
    | no n ↦ subst (λ c. Settles c x.phase) (same n) (v x (ground arith))
  ]

  moved-IsSettled :
      (cs : List ℕ) (j : ℕ) (y : Handler S) (p : Phase S) (st : Turns S W)
      → IsSettled cs st.handlers
      → (j ≡ i → Settles cs p)
      → IsSettled cs (moved j y p st).handlers
  unfolding moved
  moved-IsSettled cs j y p st v mine =
      puts cs cs st.handlers j (record y { phase = p }) v mine (λ n. refl)

  after_save-IsSettled :
      (cs : List ℕ) (j : ℕ) (y : Handler S) (to : Text) (r : Result Error Message) (st : Turns S W)
      → IsSettled cs st.handlers
      → IsSettled cs (after_save hex j y to r st).handlers
  unfolding after_save moved
  after_save-IsSettled cs j y to (err e) st v = moved-IsSettled cs j y leaving st v (λ e. tt)
  after_save-IsSettled cs j y to (ok m) st v = puts cs cs st.handlers j _ v (λ e. tt) (λ n. refl)

  held :
      {p : Phase S} (cs : List ℕ) (st : Turns S W)
      → IsSettled cs st.handlers
      → (j : ℕ) (x : Handler S) → IsAt j x p st
      → j ≡ i
      → Settles cs p
  held cs st v j x (there, at) e =
      subst (Settles cs) at (v x (subst (λ k. st.handlers k ≡ some x) e there))

  Step-IsSettled :
      {st k : Turns S W} (step : Step hex users msgs st k) (cs : List ℕ)
      → IsSettled cs st.handlers
      → IsSettled (carried_after hex users msgs i step cs) k.handlers
  unfolding carried_after moved opened picked saved unregistered
  Step-IsSettled {st} (opens call claims stream auth) cs v =
      puts cs cs st.handlers st.started _ v (λ e. tt) (λ n. refl)
  Step-IsSettled {st} (receives j x req at now here_) cs v =
      moved-IsSettled cs j x (checking req at now) st v (λ e. tt)
  Step-IsSettled {st} (ends j x f at last) cs v = moved-IsSettled cs j x leaving st v (λ e. tt)
  Step-IsSettled {st} (checks j x req at now here_) cs v =
      moved-IsSettled cs j x _ st v
        (λ e. after_check-Settles S cs req at now (users.user_exists req.to_email st.world))
  Step-IsSettled {st} (saves j x req at now here_) cs v =
      after_save-IsSettled cs j x req.to_email _ _ v
  Step-IsSettled {st} (acked j x to resp f at) cs v =
      moved-IsSettled cs j x _ st v (λ e. after_ack-Settles S cs to resp f)
  Step-IsSettled {st} (looks j x to resp at) cs v =
      puts cs (ite (ℕ_discrete j i) [] cs) st.handlers j
        (record x { phase = after_look to resp st.hub }) v
        (λ e. after_look-Settles _ to resp st.hub) (λ n. ground arith)
  Step-IsSettled {st} (picks j x d id s at found fresh) cs v =
      puts cs cs st.handlers j (record x { phase = sending d id s }) v (held cs st v j x at)
        (λ n. refl)
  Step-IsSettled {st} (sent j x d id s none at) cs v =
      let ds = ite (ℕ_discrete j i) (id ∷ cs) cs in
      puts cs ds st.handlers j (record x { phase = after_send d id none }) v
        (λ e.
          let same : id ∷ cs ≡ ds = ground arith in
          subst (λ c. Settles {S = S} c (after_send d id none)) same
            (sent-none S cs d id (held cs st v j x at e)))
        (λ n. ground arith)
  Step-IsSettled {st} (sent j x d id s (some f) at) cs v =
      moved-IsSettled cs j x (after_send d id (some f)) st v
        (λ e. sent-some S cs d id f (held cs st v j x at e))
  Step-IsSettled {st} (stops j x d at all) cs v =
      moved-IsSettled cs j x (clearing d.to d.failed) st v (λ e. tt)
  Step-IsSettled {st} (clears j x to id rest at) cs v =
      puts cs cs st.handlers j (record x { phase = clearing to rest }) v (λ e. tt) (λ n. refl)
  Step-IsSettled {st} (cleared j x to at) cs v = moved-IsSettled cs j x receiving st v (λ e. tt)
  Step-IsSettled {st} (leaves j x at) cs v =
      puts cs cs st.handlers j (record x { phase = left }) v (λ e. tt) (λ n. refl)

  -- Each connection that a loop has come to is one of those on which the `Send` of this very loop has
  -- returned an error, or of those on which it has returned none.
  pub Reach-IsSettled :
      (w : W) {st : Turns S W} (r : Reach hex users msgs (new_turns w) st)
      → IsSettled (carried hex users msgs i r) st.handlers
  unfolding carried new_turns
  Reach-IsSettled w here = λ x found. absurd (cc)
  Reach-IsSettled w (next r step) =
      Step-IsSettled step (carried hex users msgs i r) (Reach-IsSettled w r)
